-- ===== src/Device/Log.antt =====
-- statApp/src/devstat.cpp: what the update jobs of a table write to the error log.
use lin_stat.Base.{
  ℕ, ◌≡◌, refl, sym, ap, ◌∙◌, subst, inl, inr, Bool, true, false, List, [], ◌∷◌, ◌++◌, some,
  Bool-cases,
}
use lin_stat.Table.{StatTable, Body, begin, update_table}
use lin_stat.Device.Scan.{Log, error, success, report, scan_jobs}

-- One entry for each outcome that is not like the one before: an error, or a success after that.
abbrev pub changes : Bool → List Bool → List Log
changes ok [] = []
changes true (false ∷ later) = error ∷ changes false later
changes false (true ∷ later) = success ∷ changes true later
changes true (true ∷ later) = changes true later
changes false (false ∷ later) = changes false later

-- Each entry is of the other kind than the one before; `ok` says that the next is an error.
abbrev pub Alternates : Bool → List Log → Type 0
Alternates ok [] = Unit {0}
Alternates true (error ∷ log) = Alternates false log
Alternates true (success ∷ log) = ⊥
Alternates false (error ∷ log) = ⊥
Alternates false (success ∷ log) = Alternates true log

changes-Alternates : (ok : Bool) (later : List Bool) → Alternates ok (changes ok later)
changes-Alternates ok [] = tt
changes-Alternates true (false ∷ later) = changes-Alternates false later
changes-Alternates false (true ∷ later) = changes-Alternates true later
changes-Alternates true (true ∷ later) = changes-Alternates true later
changes-Alternates false (false ∷ later) = changes-Alternates false later

module _ {F : Type 0} where
  -- Whether each update returns.
  abbrev pub returned_of : List (Body F × ℕ) → List Bool
  returned_of [] = []
  returned_of ((body, now) ∷ us) = (body (begin now)).1 ∷ returned_of us

  report-changes :
      (returned : Bool) (tbl : StatTable F) (later : List Bool)
      → (report returned tbl).1 ++ changes returned later ≡ changes tbl.last_ok (returned ∷ later)
  unfolding report
  report-changes true tbl later = elim (Bool-cases tbl.last_ok) [
    | inl e ↦ rw e refl
    | inr e ↦ rw e refl
  ]
  report-changes false tbl later = elim (Bool-cases tbl.last_ok) [
    | inl e ↦ rw e refl
    | inr e ↦ rw e refl
  ]

  last_ok-report :
      (returned : Bool) (tbl : StatTable F) → (report returned tbl).0.last_ok ≡ returned
  unfolding report
  last_ok-report true tbl = refl
  last_ok-report false tbl = refl

  last_ok-update_table :
      (body : Body F) (now : ℕ) (tbl : StatTable F)
      → ((update_table body now tbl).0.last_ok ≡ tbl.last_ok)
        × ((update_table body now tbl).1 ≡ (body (begin now)).1)
  unfolding update_table
  last_ok-update_table body now tbl = (refl, refl)

  scan_jobs-changes :
      (us : List (Body F × ℕ)) (tbl : StatTable F)
      → scan_jobs us (some tbl) ≡ changes tbl.last_ok (returned_of us)
  unfolding scan_jobs
  scan_jobs-changes [] tbl = refl
  scan_jobs-changes ((body, now) ∷ us) tbl =
      let (after, returned) = update_table body now tbl in
      let (kept, same) = last_ok-update_table body now tbl in
      ap (λ log. (report returned after).1 ++ log)
        (scan_jobs-changes us (report returned after).0
          ∙ ap (λ ok. changes ok (returned_of us)) (last_ok-report returned after))
      ∙ report-changes returned after (returned_of us)
      ∙ ap (λ ok. changes ok (returned ∷ returned_of us)) kept
      ∙ ap (λ r. changes tbl.last_ok (r ∷ returned_of us)) same

  -- Whatever the updates of a table do, the log of its jobs has exactly one entry for each update
  -- that ends otherwise than the one before, an error if it throws and a success if it returns, and
  -- none for the others: a lasting failure is logged once. So errors and successes alternate, an
  -- error first where the table was good before.
  pub scan_jobs-Alternates :
      (us : List (Body F × ℕ)) (tbl : StatTable F)
      → (scan_jobs us (some tbl) ≡ changes tbl.last_ok (returned_of us))
        × Alternates tbl.last_ok (scan_jobs us (some tbl))
  scan_jobs-Alternates us tbl =
      let exact = scan_jobs-changes us tbl in
      (
        exact,
        subst (Alternates tbl.last_ok) (sym exact)
            (changes-Alternates tbl.last_ok (returned_of us)),
      )
