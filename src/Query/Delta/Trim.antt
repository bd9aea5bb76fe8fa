-- ===== src/Query/Delta/Trim.antt =====
-- Where the loop of `Engine.Delta` cuts a page.
use remindb.Prelude.{
  ℕ, zero, suc, ◌-◌, ◌≤◌, ◌<◌, ◌≡◌, refl, ap, ◌≢◌, List, [], ◌∷◌, arith, length, take, ℕ_discrete,
  dec_lt, length-take,
}
use remindb.Store.Snapshots.{DiffRecord}
use remindb.Query.Delta.{snapshot_at, trim}

module _ (l : List DiffRecord) (last c : ℕ) where
  trim_on : snapshot_at l c ≡ last → trim l last (suc c) ≡ trim l last c
  unfolding trim
  trim_on e = ground arith

  trim_off : snapshot_at l c ≢ last → trim l last (suc c) ≡ suc c
  unfolding trim
  trim_off e = ground arith

trim_zero : (l : List DiffRecord) (last : ℕ) → trim l last 0 ≡ 0
unfolding trim
trim_zero l last = refl

-- Where the loop stops: the row at the cut is of the last snapshot, the row before it is not.
pub trim_stops :
    (l : List DiffRecord) (last c : ℕ)
    → (trim l last c ≤ c)
      × (trim l last c < c → snapshot_at l (trim l last c) ≡ last)
      × (0 < trim l last c → snapshot_at l (trim l last c - 1) ≢ last)
trim_stops l last zero =
    rw (trim_zero l last) (omega arith, (λ h. absurd (omega arith)), (λ h. absurd (omega arith)))
trim_stops l last (suc c) =
    let (bound, stop, before) = trim_stops l last c in
    elim (ℕ_discrete (snapshot_at l c) last) [
      | yes e ↦ rw (trim_on l last c e) (
        omega arith,
        (λ h. elim (dec_lt (trim l last c) c) [
          | yes p ↦ stop p
          | no p ↦ let q : trim l last c ≡ c = omega arith in rw q e
        ]),
        before,
      )
      | no e ↦
          let q : suc c - 1 ≡ c = omega arith in
          rw (trim_off l last c e) (omega arith, (λ h. absurd (omega arith)), (λ h. rw q e))
    ]

pub snapshot_at-take :
    (n i : ℕ) (l : List DiffRecord) → i < n → snapshot_at (take n l) i ≡ snapshot_at l i
unfolding snapshot_at
snapshot_at-take zero i l h = absurd (omega arith)
snapshot_at-take (suc n) i [] h = refl
snapshot_at-take (suc n) zero (d ∷ l) h = refl
snapshot_at-take (suc n) (suc i) (d ∷ l) h = snapshot_at-take n i l (omega arith)

length-take-suc : (n : ℕ) (l : List DiffRecord) → n < length (take (suc n) l) → suc n ≤ length l
length-take-suc n l h = omega (arith, length-take (suc n) l)

pub take-take : (m n : ℕ) (l : List DiffRecord) → m ≤ n → take m (take n l) ≡ take m l
take-take zero n l h = refl
take-take (suc m) zero l h = absurd (omega arith)
take-take (suc m) (suc n) [] h = refl
take-take (suc m) (suc n) (d ∷ l) h = ap (λ r. d ∷ r) (take-take m n l (omega arith))

pub take_short : (n : ℕ) (l : List DiffRecord) → length (take (suc n) l) ≤ n → take (suc n) l ≡ l
take_short n [] h = refl
take_short zero (d ∷ l) h = absurd (omega arith)
take_short (suc n) (d ∷ l) h = ap (λ r. d ∷ r) (take_short n l (omega arith))
