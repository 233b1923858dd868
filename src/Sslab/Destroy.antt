-- ===== src/Sslab/Destroy.antt =====
-- `sslab_cache_destroy`: a page goes back to the buddy allocator.
use ord_os.Base.{sym, ℕ, ◌≡◌, ◌≢◌, inr, refl, Option, some, arith, ◌∙◌, ap}
use ord_os.Buddy.InUse.{PageFreed, page_freed, IsPage, page_low}
use ord_os.Buddy.{Buddy, buddy_free_page}
use ord_os.Buddy.Blocks.{IsBuddy, Free}
use ord_os.Buddy.Address.{zone_normal, virt_of, page_get_by_virt, page_get_by_virt_lem}
use ord_os.Sslab.{Kmem, sslab_cache_destroy}

pub record Destroyed (k : Kmem) (a : ℕ) (out : Option Kmem) : Type 0 where
  pub buddy : Buddy
  pub returned : out ≡ some (record k { buddy = buddy })
  pub valid : IsBuddy buddy
  pub released : (buddy.zones zone_normal).lock ≡ 0
  pub pages : (b : ℕ) → b ≢ a → IsPage k.buddy b → IsPage buddy b
  pub free : (p : ℕ) → a ≡ virt_of p → Free buddy p

-- A page in use becomes free, and every other one stays in use.
pub sslab_cache_destroy-Destroyed :
    (k : Kmem) (a : ℕ)
    → IsBuddy k.buddy
    → (k.buddy.zones zone_normal).lock ≡ 0
    → IsPage k.buddy a
    → Destroyed k a (sslab_cache_destroy k a)
unfolding sslab_cache_destroy
sslab_cache_destroy-Destroyed k a ok released h = record {
  buddy = back.state;
  returned = rw (sslab_cache_destroy, found, back.returned) refl;
  valid = back.valid;
  released = back.released;
  pages = λ b ne. back.pages b (λ e. ne (e ∙ sym h.address));
  free = λ p e. (back.freed p).1 (inr (omega (arith, e, h.address), omega (arith, e, h.address)));
}
  where
    back : PageFreed k.buddy h.page (buddy_free_page k.buddy h.page 0)
    back = page_freed k.buddy h.page ok released h.held h.zone

    found : page_get_by_virt k.buddy a ≡ some h.page
    found =
        let low = page_low k.buddy h.page ok h.held h.zone in
        ap (page_get_by_virt k.buddy) h.address ∙ page_get_by_virt_lem k.buddy h.page low.0 low.1
