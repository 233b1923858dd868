-- ===== src/Bitmap/Find.antt =====
-- `bitmap_find` is a first-fit search.
use ord_os.Base.{
  ℕ, zero, suc, ◌*◌, ◌+◌, ◌-◌, ◌<◌, ◌≤◌, ◌≡◌, ◌≢◌, refl, Bool, ◌&&◌, some, arith, ltb, ◌==◌,
  bool_eq, if◌then◌else◌, Bool-cases, inl, inr, dec_lt, npos, add32, ap, sym, ◌∙◌, subst, lt→ltb,
  ge→ltb, eq→==, ne→==, ℕ_discrete,
}
use ord_os.Bitmap.{
  Bitmap, Scan, found, stopped, total_bits, scan_run, find_from, bitmap_find, bitmap_get,
}
use ord_os.Bitmap.Bits.{IsValid, bool_eq→eq, bool_eq-ne}

-- The `n` bits from `s` on all have the given value.
abbrev pub Run : Bitmap → Bool → ℕ → ℕ → Type 0
Run b value s n = (j : ℕ) → s ≤ j → j < s + n → bitmap_get b j ≡ value

module _ (b : Bitmap) (size : ℕ) (value : Bool) where
  -- A run of `size` bits that lies in the bitmap.
  abbrev pub Fits : ℕ → Type 0
  Fits s = (s + size ≤ b.size * 8) × Run b value s size

  -- What `bitmap_find` returns: the first place where a run fits, or `NPOS` if there is none.
  pub data IsFirstFit : ℕ → Type 0 where
    at : {r : ℕ} → r ≢ npos → Fits r → ((s : ℕ) → s < r → ¬ Fits s) → IsFirstFit r
    nowhere : {r : ℕ} → r ≡ npos → ((s : ℕ) → ¬ Fits s) → IsFirstFit r

  -- What the inner loop has found out, started at `start`.
  data Scanned (start : ℕ) : Scan → Type 0 where
    hit : {r : ℕ} → r ≡ start → Fits start → Scanned start (found r)
    miss :
        {e : ℕ}
        → start ≤ e
        → e ≤ b.size * 8
        → ((s : ℕ) → start ≤ s → s ≤ e → ¬ Fits s)
        → Scanned start (stopped e)

  module _ (ok : IsValid b) (positive : 0 < size) where
    -- Without wrap-around and index overflow, one round of the inner loop.
    scan_run-suc :
        (fuel start end : ℕ)
        → start ≤ end
        → end ≤ b.size * 8
        → start < b.size * 8
        → scan_run b size value (suc fuel) start end ≡ (
            if ltb end (b.size * 8) && bool_eq (bitmap_get b end) value
            then (if end + 1 - start == size
                then found start
                else scan_run b size value fuel start (end + 1))
            else stopped end)
    unfolding scan_run
    scan_run-suc fuel start end le inside below = ground (arith, ok.small)

    Run-suc :
        (start end : ℕ)
        → start ≤ end
        → Run b value start (end - start)
        → bitmap_get b end ≡ value
        → Run b value start (end + 1 - start)
    Run-suc start end le run here j lo hi = elim (dec_lt j end) [
      | yes before ↦ run j lo (omega arith)
      | no at_end ↦ subst (λ k. bitmap_get b k ≡ value) (omega arith) here
    ]

    scan_run-Scanned :
        (fuel start end : ℕ)
        → start ≤ end
        → end < start + size
        → end ≤ b.size * 8
        → start < b.size * 8
        → b.size * 8 - end < fuel
        → Run b value start (end - start)
        → Scanned start (scan_run b size value fuel start end)
    scan_run-Scanned zero start end le short inside below enough run = absurd (omega arith)
    scan_run-Scanned (suc fuel) start end le short inside below enough run =
        rw (scan_run-suc fuel start end le inside below) (elim (dec_lt end (b.size * 8)) [
          | no outside ↦
              rw (ge→ltb end (b.size * 8) (omega arith))
                (miss le inside (λ s lo hi f. omega (arith, f.0)))
          | yes before ↦ elim (Bool-cases (bool_eq (bitmap_get b end) value)) [
            | inr other ↦
                rw (lt→ltb end (b.size * 8) before, other)
                  (miss le inside (λ s lo hi f. bool_eq-ne _ _ other (f.1 end hi (omega arith))))
            | inl same ↦
                let longer = Run-suc start end le run (bool_eq→eq _ _ same) in
                rw (lt→ltb end (b.size * 8) before, same)
                  (elim (ℕ_discrete (end + 1 - start) size) [
                    | yes full ↦
                        rw (eq→== _ _ full)
                          (hit refl (omega arith, subst (Run b value start) full longer))
                    | no more ↦ rw (ne→== _ _ more) (
                        scan_run-Scanned fuel start (end + 1) (omega arith) (omega arith)
                          (omega arith) below (omega arith) longer)
                  ])
          ]
        ])

    find_from-found :
        (fuel start r : ℕ)
        → start < b.size * 8
        → scan_run b size value (suc (total_bits b)) start start ≡ found r
        → find_from b size value (suc fuel) start ≡ some r
    unfolding find_from
    find_from-found fuel start r inside e = rw e (ground (arith, ok.small))

    find_from-stopped :
        (fuel start end : ℕ)
        → start < b.size * 8
        → end ≤ b.size * 8
        → scan_run b size value (suc (total_bits b)) start start ≡ stopped end
        → find_from b size value (suc fuel) start ≡ find_from b size value fuel (end + 1)
    unfolding find_from
    find_from-stopped fuel start end inside le e =
        let same : add32 end 1 ≡ end + 1 = omega (arith, ok.small) in
        rw e (ground (arith, ok.small, ap (find_from b size value fuel) same))

    find_from-end :
        (fuel start : ℕ) → b.size * 8 ≤ start → find_from b size value (suc fuel) start ≡ some npos
    unfolding find_from
    find_from-end fuel start past = ground (arith, ok.small)

    abbrev Outcome : ℕ → ℕ → Type 0
    Outcome fuel start = (r : ℕ) × (find_from b size value fuel start ≡ some r) × IsFirstFit r

    after_scan :
        (fuel start : ℕ) (c : Scan)
        → start < b.size * 8
        → scan_run b size value (suc (total_bits b)) start start ≡ c
        → Scanned start c
        → ((s : ℕ) → s < start → ¬ Fits s)
        → ((e : ℕ)
            → start ≤ e
            → e ≤ b.size * 8
            → ((s : ℕ) → s < e + 1 → ¬ Fits s)
            → Outcome fuel (e + 1))
        → Outcome (suc fuel) start
    after_scan fuel start _ inside e (hit {r} same fits) before next = (
      r,
      find_from-found fuel start r inside e,
      at (omega (arith, ok.small)) (subst Fits (sym same) fits) (λ s lt. before s (omega arith)),
    )
    after_scan fuel start _ inside e (miss {e = end} lo hi none_here) before next =
        let (r, returned, first) = next end lo hi (λ s lt f. elim (dec_lt s start) [
          | yes early ↦ before s early f
          | no late ↦ none_here s (omega arith) (omega arith) f
        ]) in
        (r, find_from-stopped fuel start end inside hi e ∙ returned, first)

    -- What the outer loop returns from `start` on, if no run fits before `start`.
    find_from-IsFirstFit :
        (fuel start : ℕ)
        → start ≤ b.size * 8 + 1
        → b.size * 8 - start < fuel
        → ((s : ℕ) → s < start → ¬ Fits s)
        → Outcome fuel start
    find_from-IsFirstFit zero start le enough before = absurd (omega arith)
    find_from-IsFirstFit (suc fuel) start le enough before = elim (dec_lt start (b.size * 8)) [
      | no past ↦ (
        npos,
        find_from-end fuel start (omega arith),
        nowhere refl (λ s f. before s (omega (arith, f.0)) f),
      )
      | yes inside ↦
          after_scan fuel start (scan_run b size value (suc (total_bits b)) start start) inside refl
            (scan_run-Scanned (suc (total_bits b)) start start (omega arith) (omega arith)
              (omega arith) inside (omega (arith, ok.small)) (λ j lo hi. absurd (omega arith)))
            before
            (λ e lo hi gone. find_from-IsFirstFit fuel (e + 1) (omega arith) (omega arith) gone)
    ]

  -- `bitmap_find` returns, and returns the first index from which `size` bits have the value, or
  -- `NPOS` if there is none; the bitmap is valid and `size` is not 0.
  pub bitmap_find-IsFirstFit :
      IsValid b → 0 < size → (r : ℕ) × (bitmap_find b size value ≡ some r) × IsFirstFit r
  unfolding bitmap_find
  bitmap_find-IsFirstFit ok positive =
      find_from-IsFirstFit ok positive (suc (total_bits b)) 0 (omega arith)
        (omega (arith, ok.small)) (λ s lt. absurd (omega arith))
