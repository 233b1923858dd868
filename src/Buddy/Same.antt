-- ===== src/Buddy/Same.antt =====
-- Changes of a zone's lock and count spare its pages and lists.
use ord_os.Base.{ℕ, ◌≡◌, refl, arith, ap, sym, ◌∙◌}
use ord_os.Buddy.{Buddy, Page, area_of, set_lock, set_pg_free}
use ord_os.Buddy.Blocks.{IsBuddy, IsBlock, Held}
use ord_os.Buddy.Step.{IsBlock-same}

module _ (s t : Buddy) (cnt : t.pages_cnt ≡ s.pages_cnt)
    (pages : (q : ℕ) → t.pages q ≡ s.pages q) where
  same-IsBlock : (p o : ℕ) → IsBlock s p o → IsBlock t p o
  same-IsBlock p o = IsBlock-same s t p o cnt (λ q. ap (λ (x : Page). x.reserved) (pages q))

  pub Held-same : (p o : ℕ) → Held s p o → Held t p o
  Held-same p o h = record {
    is_block = same-IsBlock p o h.is_block;
    clear = λ q free. rw (pages q) (h.clear q (ap (λ (x : Page). x.buddy) (sym (pages q)) ∙ free));
  }

  pub IsBuddy-same : ((y o : ℕ) → area_of t y o ≡ area_of s y o) → IsBuddy s → IsBuddy t
  IsBuddy-same areas ok = record {
    small = omega (arith, ok.small, cnt);
    zone = λ p lt. rw (pages p) (ok.zone p (omega (arith, cnt)));
    listed = λ y o p. rw (areas y o, pages p) (ok.listed y o p);
    distinct = λ y o. rw (areas y o) (ok.distinct y o);
    counted = λ y o. rw (areas y o) (ok.counted y o);
    block = λ p free.
        rw (pages p)
          (same-IsBlock p _ (ok.block p (ap (λ (x : Page). x.buddy) (sym (pages p)) ∙ free)));
    apart = λ p q fp fq ne.
        rw (pages p, pages q)
          (ok.apart p q (ap (λ (x : Page). x.buddy) (sym (pages p)) ∙ fp)
            (ap (λ (x : Page). x.buddy) (sym (pages q)) ∙ fq) ne);
  }

pub set_lock-area : (s : Buddy) (z lock y o : ℕ) → area_of (set_lock z lock s) y o ≡ area_of s y o
set_lock-area s z lock y o = ground arith

pub set_pg_free-area :
    (s : Buddy) (z free y o : ℕ) → area_of (set_pg_free z free s) y o ≡ area_of s y o
set_pg_free-area s z free y o = ground arith

pub set_lock-IsBuddy : (s : Buddy) (z lock : ℕ) → IsBuddy s → IsBuddy (set_lock z lock s)
set_lock-IsBuddy s z lock =
    IsBuddy-same s (set_lock z lock s) refl (λ q. refl) (set_lock-area s z lock)

pub set_pg_free-IsBuddy : (s : Buddy) (z free : ℕ) → IsBuddy s → IsBuddy (set_pg_free z free s)
set_pg_free-IsBuddy s z free =
    IsBuddy-same s (set_pg_free z free s) refl (λ q. refl) (set_pg_free-area s z free)
