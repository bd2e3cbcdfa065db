-- ===== src/Tables/Irq/Busiest.antt =====
-- statApp/src/tblIRQ.cpp: the sum of all counts, and the interrupt that came most often.
use lin_stat.Base.{
  ℕ, ◌+◌, ◌^◌, ◌≤◌, ◌<◌, ◌≡◌, refl, ◌⊎◌, inl, inr, [], ◌∷◌, arith, ltb, Bool-cases, ap, ◌∙◌,
}
use lin_stat.Base.Text.{Bytes}
use lin_stat.Base.Dict.{Dict}
use lin_stat.Tables.Irq.{u64, Scan, delta, visit, scan, start}

-- An entry stands in the counts.
pub data Has (label : Bytes) (count : ℕ) : Dict ℕ → Type 0 where
  here : {m : Dict ℕ} → Has label count ((label, count) ∷ m)
  there : {l : Bytes} {c : ℕ} {m : Dict ℕ} → Has label count m → Has label count ((l, c) ∷ m)

abbrev pub sum : Dict ℕ → ℕ
sum [] = 0
sum ((label, count) ∷ m) = count + sum m

scan-grows : (prev counts : Dict ℕ) (s : Scan) → s.max_delta ≤ (scan prev counts s).max_delta
unfolding scan
scan-grows prev [] s = omega arith
scan-grows prev ((label, count) ∷ counts) s =
    ground (arith, scan-grows prev counts (visit prev label count s))

scan_bounds :
    (prev : Dict ℕ) (label : Bytes) (count : ℕ) {counts : Dict ℕ} (s : Scan)
    → Has label count counts
    → delta prev label count ≤ (scan prev counts s).max_delta
unfolding scan
scan_bounds prev label count s (here {m = m}) =
    ground (arith, scan-grows prev m (visit prev label count s))
scan_bounds prev label count s (there {l = l} {c = c} {m = m} h) =
    scan_bounds prev label count (visit prev l c s) h

scan-total :
    (prev counts : Dict ℕ) (s : Scan)
    → s.total < 2 ^ 64
    → (scan prev counts s).total ≡ u64 (s.total + sum counts)
unfolding scan
scan-total prev [] s h = omega arith
scan-total prev ((label, count) ∷ counts) s h =
    ground (arith, scan-total prev counts (visit prev label count s))

-- The maximum is that of an entry, or what it was before.
scan_attains :
    (prev counts : Dict ℕ) (s : Scan)
    → ((label : Bytes) × (count : ℕ) × Has label count counts
        × (delta prev label count ≡ (scan prev counts s).max_delta)
        × (label ≡ (scan prev counts s).max_name))
      ⊎ (((scan prev counts s).max_delta ≡ s.max_delta)
          × ((scan prev counts s).max_name ≡ s.max_name))
unfolding scan
scan_attains prev [] s = inr (refl, refl)
scan_attains prev ((label, count) ∷ counts) s =
    elim (scan_attains prev counts (visit prev label count s)) [
      | inl (l, c, h, e, n) ↦ inl (l, c, there h, e, n)
      | inr (e, n) ↦ elim (Bool-cases (ltb s.max_delta (delta prev label count))) [
        | inl more ↦ inl (label, count, here, ground arith, ground arith)
        | inr less ↦ inr (ground arith, ground arith)
      ]
    ]

-- The scan of the counts gives their sum modulo 2 ^ 64, and the interrupt with the largest number
-- since the last update: no entry has a larger one, and the name and the number are those of an
-- entry, unless no entry has any, when the number is 0 and the name is empty.
pub scan_lem :
    (prev counts : Dict ℕ)
    → let s = scan prev counts start in
      (s.total ≡ u64 (sum counts))
      × ((label : Bytes) (count : ℕ)
          → Has label count counts
          → delta prev label count ≤ s.max_delta)
      × (((label : Bytes) × (count : ℕ) × Has label count counts
            × (delta prev label count ≡ s.max_delta)
            × (label ≡ s.max_name))
          ⊎ ((s.max_delta ≡ 0) × (s.max_name ≡ [])))
scan_lem prev counts = (
  scan-total prev counts start (omega arith) ∙ ap u64 (omega arith),
  (λ label count h. scan_bounds prev label count start h),
  scan_attains prev counts start,
)
