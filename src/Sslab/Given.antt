-- ===== src/Sslab/Given.antt =====
-- An object that `kmalloc` hands out.
use ord_os.Base.{
  ℕ, ◌+◌, ◌≤◌, ◌<◌, ◌≡◌, ◌≢◌, ◌⊎◌, inl, inr, refl, true, Option, some, List, arith, among, ◌∙◌, ap,
  sym, subst, ℕ_discrete, page_size,
}
use ord_os.Buddy.InUse.{IsPage, pages_apart}
use ord_os.Slab.{Cache, max_order}
use ord_os.Slab.FreeList.{slot}
use ord_os.Slab.Create.{first_object}
use ord_os.Sslab.{Sslab, Sslabs, Kmem, set_sslab}
use ord_os.Sslab.Objects.{IsSslab, IsSslab-kept, Given, in_use, offset, address, object_inside}
use ord_os.Sslab.Entries.{IsKmalloc, IsClass, entry_at, by_entry, entry_taken}

-- An object of at least `size` bytes that overlaps none that is in use, of whatever size.
pub record Kgiven (size : ℕ) (t : Sslabs) (k : Kmem) (live : ℕ → List ℕ)
    (out : Option (Option ℕ × Sslabs × Kmem)) : Type 0 where
  pub page : ℕ
  pub at : ℕ
  pub sslabs : Sslabs
  pub state : Kmem
  pub free_now : ℕ → List ℕ
  pub live_now : ℕ → List ℕ
  pub returned : out ≡ some (some (page + at), sslabs, state)
  pub valid : IsKmalloc sslabs state free_now live_now
  pub used :
      (i : ℕ) × (m : ℕ) × (i < max_order)
      × (in_use (sslabs (i + 1)) live_now page m ≡ true)
      × (page + at ≡ address (sslabs (i + 1)) page m)
  pub apart :
      (i b m : ℕ)
      → i < max_order
      → in_use (t (i + 1)) live b m ≡ true
      → (address (t (i + 1)) b m + (t (i + 1)).obj_size ≤ page + at)
        ⊎ (page + at + size ≤ address (t (i + 1)) b m)
  pub still :
      (i b m : ℕ)
      → i < max_order
      → in_use (t (i + 1)) live b m ≡ true
      → in_use (sslabs (i + 1)) live_now b m ≡ true
  pub zeroed : (x : ℕ) → x < size → (state.caches page).memory (at + x) ≡ 0
  pub kept :
      (i b m x : ℕ)
      → i < max_order
      → in_use (t (i + 1)) live b m ≡ true
      → x < (t (i + 1)).obj_size
      → (state.caches b).memory (offset (t (i + 1)) m + x)
        ≡ (k.caches b).memory (offset (t (i + 1)) m + x)

module _ (size : ℕ) (t : Sslabs) (k : Kmem) (free live : ℕ → List ℕ) (c : ℕ)
    (ok : IsKmalloc t k free live) (class : IsClass size c) where
  module _ (page index : ℕ) (out : Option (Option ℕ × Sslab × Kmem))
      (g : Given c (t (c + 1)) k free live page index out) where
    abbrev after : Sslabs
    after = set_sslab (c + 1) g.sslab t

    -- A page that another entry lists was that entry's before.
    not_other : (j : ℕ) → j < max_order → j ≢ c → among page (t (j + 1)).caches ≢ true
    not_other j lt ne h =
        ne (ok.own j c page lt class.below h (g.mine ((ok.each j lt).page page h)))

    other_page : (j b : ℕ) → j < max_order → j ≢ c → among b (t (j + 1)).caches ≡ true → b ≢ page
    other_page j b lt ne h e =
        not_other j lt ne (subst (λ x. among x (t (j + 1)).caches ≡ true) e h)

    each_after : (j : ℕ) → j < max_order → IsSslab j (after (j + 1)) g.state g.free_now g.live_now
    each_after j lt =
        by_entry c j (λ s. IsSslab j s g.state g.free_now g.live_now) g.sslab t
          (λ e. subst (λ x. IsSslab x g.sslab g.state g.free_now g.live_now) (sym e) g.valid)
          (λ ne.
            IsSslab-kept j (t (j + 1)) k g.state free live g.free_now g.live_now (ok.each j lt)
              g.keeps.valid g.keeps.released
              (λ b h. (
                g.keeps.pages b ((ok.each j lt).page b h),
                g.others b (other_page j b lt ne h),
                (g.elsewhere b (other_page j b lt ne h)).0,
                (g.elsewhere b (other_page j b lt ne h)).1,
              )))

    mixed :
        (j b : ℕ)
        → j < max_order
        → j ≢ c
        → among b g.sslab.caches ≡ true
        → among b (t (j + 1)).caches ≡ true
        → j ≡ c
    mixed j b lt ne mine theirs =
        ok.own j c b lt class.below theirs
          (ground (arith, g.listed_now b, other_page j b lt ne theirs))

    own_after :
        (i j b : ℕ)
        → i < max_order
        → j < max_order
        → among b (after (i + 1)).caches ≡ true
        → among b (after (j + 1)).caches ≡ true
        → i ≡ j
    own_after i j b hi hj li lj =
        by_cases (entry_at c g.sslab t i b li) (entry_at c g.sslab t j b lj)
      where
        In : ℕ → Type 0
        In x =
            ((x ≡ c) × (among b g.sslab.caches ≡ true))
            ⊎ ((x ≢ c) × (among b (t (x + 1)).caches ≡ true))

        by_cases : In i → In j → i ≡ j
        by_cases (inl (e, l)) (inl (e', l')) = e ∙ sym e'
        by_cases (inl (e, l)) (inr (ne, l')) = e ∙ sym (mixed j b hj ne l l')
        by_cases (inr (ne, l)) (inl (e, l')) = mixed i b hi ne l' l ∙ sym e
        by_cases (inr (ne, l)) (inr (ne', l')) = ok.own i j b hi hj l l'

    same_size : g.sslab.obj_size ≡ (t (c + 1)).obj_size
    same_size = g.valid.obj_size ∙ sym (ok.each c class.below).obj_size

    new_used : in_use g.sslab g.live_now page index ≡ true
    new_used = ground (arith, g.now page index)

    abbrev here : ℕ
    here = offset (t (c + 1)) index

    new_inside : here + (t (c + 1)).obj_size ≤ page_size
    new_inside =
        subst (λ n. slot (first_object n) n index + n ≤ page_size) same_size
          (object_inside c g.sslab g.state g.free_now g.live_now page index g.valid new_used)

    enough : size ≤ (t (c + 1)).obj_size
    enough = subst (λ n. size ≤ n) (sym (ok.each c class.below).obj_size) class.enough

    -- A fact about the objects of every entry, from those of the entry `c` and of the others.
    by_class :
        (P : Sslab → ℕ → ℕ → Type 0) (i b m : ℕ)
        → i < max_order
        → ((b m : ℕ) → in_use (t (c + 1)) live b m ≡ true → P (t (c + 1)) b m)
        → (b ≢ page → IsPage k.buddy b → in_use (t (i + 1)) live b m ≡ true → P (t (i + 1)) b m)
        → in_use (t (i + 1)) live b m ≡ true
        → P (t (i + 1)) b m
    by_class P i b m lt mine theirs h = elim (ℕ_discrete i c) [
      | yes e ↦
          subst (λ x. in_use (t (x + 1)) live b m ≡ true → P (t (x + 1)) b m) (sym e) (mine b m) h
      | no ne ↦ theirs (other_page i b lt ne listed) ((ok.each i lt).page b listed) h
    ]
      where
        listed : among b (t (i + 1)).caches ≡ true
        listed = ground arith

    abbrev Clear : Sslab → ℕ → ℕ → Type 0
    Clear s b m = (address s b m + s.obj_size ≤ page + here) ⊎ (page + here + size ≤ address s b m)

    clear : (i b m : ℕ) → i < max_order → in_use (t (i + 1)) live b m ≡ true → Clear (t (i + 1)) b m
    clear i b m lt =
        by_class Clear i b m lt (λ b m h. ground (arith, g.apart b m h, enough))
          (λ ne on_page h. ground (
            arith,
            pages_apart g.state.buddy page b (g.valid.page page (ground (arith, g.listed_now page)))
                (g.keeps.pages b on_page) ne,
            object_inside i (t (i + 1)) k free live b m (ok.each i lt) h,
            new_inside,
            enough,
          ))

    abbrev Kept : ℕ → Sslab → ℕ → ℕ → Type 0
    Kept x s b m =
        x < s.obj_size
        → (g.state.caches b).memory (offset s m + x) ≡ (k.caches b).memory (offset s m + x)

    kept :
        (x i b m : ℕ) → i < max_order → in_use (t (i + 1)) live b m ≡ true → Kept x (t (i + 1)) b m
    kept x i b m lt =
        by_class (Kept x) i b m lt (λ b m h less. g.kept b m x h less)
          (λ ne on_page h less.
            ap (λ (c : Cache). c.memory (offset (t (i + 1)) m + x)) (g.others b ne))

    still :
        (i b m : ℕ)
        → i < max_order
        → in_use (t (i + 1)) live b m ≡ true
        → in_use (after (i + 1)) g.live_now b m ≡ true
    still i b m lt h =
        by_entry c i (λ s. in_use s g.live_now b m ≡ true) g.sslab t
          (λ e. ground (arith, g.now b m, subst (λ x. in_use (t (x + 1)) live b m ≡ true) e h))
          (λ ne. rw (g.elsewhere b (other_page i b lt ne (ground arith))).1 h)

    at_entry : after (c + 1) ≡ g.sslab
    at_entry = ground arith

    pub kgiven : Kgiven size t k live (entry_taken c t out)
    kgiven = record {
      page = page;
      at = here;
      sslabs = after;
      state = g.state;
      free_now = g.free_now;
      live_now = g.live_now;
      returned = rw g.returned refl;
      valid = record { each = each_after; own = own_after };
      used = (
        c,
        index,
        class.below,
        subst (λ s. in_use s g.live_now page index ≡ true) (sym at_entry) new_used,
        subst (λ s. page + here ≡ address s page index) (sym at_entry)
            (ap (λ n. page + slot (first_object n) n index) (sym same_size)),
      );
      apart = clear;
      still = still;
      zeroed = λ x less. g.zeroed x (omega (arith, enough));
      kept = λ i b m x lt h less. kept x i b m lt h less;
    }
