-- ===== src/Server/Queue/Streaming.antt =====
-- What a client that reads a job's events from a cursor is sent (`events_after` in
-- RotoWeaveServer/server/repository.py).
use mathlib.Core.List.{map}
use rotoweave.Base.{
  ℕ, zero, suc, ◌+◌, ◌-◌, ◌≤◌, String, ◌≡◌, refl, sym, ap, ◌∙◌, subst, Bool, true, false, ◌&&◌,
  List, [], ◌∷◌, arith, str_eq, leb, select_where, length, Bool-cases, inl, inr, if◌then◌else◌, All,
}
use rotoweave.Base.Order.{insert_by, sort_by}
use rotoweave.Base.Signed.{ℤ, pos, negsuc}
use rotoweave.Server.Queue.Schema.{Payload, Event, Db}
use rotoweave.Server.Queue.Admin.{in_sequence, past_cursor, events_after}
use rotoweave.Server.Queue.Invariant.{IsValid, PayloadAgrees, sequences, count_up}

-- The first number past a cursor.
abbrev pub first_past : ℤ → ℕ
first_past (pos n) = suc n
first_past (negsuc n) = 0

numbers : List Event → List ℕ
numbers es = map (λ (e : Event). e.sequence) es

-- The numbers from `k` on.
from : ℕ → List ℕ → List ℕ
from k [] = []
from k (n ∷ ns) = let rest = from k ns in if leb k n then n ∷ rest else rest

past_first : (c : ℤ) (e : Event) → past_cursor c e ≡ leb (first_past c) e.sequence
past_first (pos n) e = ground arith
past_first (negsuc n) e = ground arith

abbrev of_job : String → ℤ → Event → Bool
of_job i c e = str_eq e.job_id i && past_cursor c e

numbers-select :
    (i : String) (c : ℤ) (es : List Event)
    → numbers (select_where (of_job i c) es) ≡ from (first_past c) (sequences i es)
unfolding numbers from
numbers-select i c [] = refl
numbers-select i c (e ∷ es) = ground (arith, numbers-select i c es, past_first c e)

from-above : (a b l : ℕ) → a ≤ b → from a (count_up b l) ≡ count_up b l
unfolding from
from-above a b zero le = refl
from-above a b (suc l) le =
    let t : leb a b ≡ true = ground arith in rw (t, from-above a (suc b) l (omega arith))

from-count_up : (k m n : ℕ) → from (m + k) (count_up m n) ≡ count_up (m + k) (n - k)
unfolding from
from-count_up zero m n =
    let e : m ≡ m + 0 = omega arith in
    let g : n ≡ n - 0 = omega arith in
    subst (λ a. from a (count_up m n) ≡ count_up a (n - 0)) e
      (subst (λ b. from m (count_up m n) ≡ count_up m b) g (from-above m m n (omega arith)))
from-count_up (suc k) m zero = let e : zero - suc k ≡ 0 = omega arith in rw e
from-count_up (suc k) m (suc n) =
    let e : m + suc k ≡ suc m + k = omega arith in
    let g : suc n - suc k ≡ n - k = omega arith in
    let t : leb (suc m + k) m ≡ false = ground arith in
    subst (λ a. from a (count_up m (suc n)) ≡ count_up a (suc n - suc k)) (sym e)
      (rw (g, t) (from-count_up k (suc m) n))

-- A list that is in order already is left by the sort.
sort-numbered :
    (k l : ℕ) (es : List Event) → numbers es ≡ count_up k l → sort_by in_sequence es ≡ es
unfolding sort_by insert_by numbers
sort-numbered k l [] h = refl
sort-numbered k zero (e ∷ es) h = cc
sort-numbered k (suc l) (e ∷ []) h = refl
sort-numbered k (suc zero) (e ∷ d ∷ es) h = cc
sort-numbered k (suc (suc l)) (e ∷ d ∷ es) h =
    let tail : numbers (d ∷ es) ≡ count_up (suc k) (suc l) = unfold numbers in cc in
    let ih = sort-numbered (suc k) (suc l) (d ∷ es) tail in
    let first : e.sequence ≡ k = cc in
    let second : d.sequence ≡ suc k = cc in
    let le : leb e.sequence d.sequence ≡ true = ground arith in rw (ih, le)

payload_numbers :
    (es : List Event)
    → All PayloadAgrees es
    → map (λ (p : Payload). p.sequence) (map (λ (e : Event). e.payload) es) ≡ numbers es
unfolding numbers
payload_numbers [] h = refl
payload_numbers (e ∷ es) h = rw (h.0.1, payload_numbers es h.1)

All-selected :
    (P : Event → Type 0) (p : Event → Bool) (es : List Event) → All P es → All P (select_where p es)
All-selected P p [] h = tt
All-selected P p (e ∷ es) h = elim (Bool-cases (p e)) [
  | inl q ↦ rw q (h.0, All-selected P p es h.1)
  | inr q ↦ rw q (All-selected P p es h.1)
]

-- A client that asks for a job's events past a cursor is sent, in order and without a gap, those
-- numbered from one past the cursor, or from 0 for a negative cursor, to the last; a client that goes
-- on from the last number that it has seen so misses no event and gets none twice.
pub events_after_lem :
    (i : String) (cursor : ℤ) (db : Db)
    → IsValid db
    → map (λ (p : Payload). p.sequence) (events_after i cursor db)
      ≡ count_up (first_past cursor) (length (sequences i db.events) - first_past cursor)
unfolding events_after
events_after_lem i cursor db v =
    let sel = select_where (of_job i cursor) db.events in
    let counted : numbers sel
        ≡ count_up (0 + first_past cursor) (length (sequences i db.events) - first_past cursor) =
      numbers-select i cursor db.events ∙ ap (from (first_past cursor)) (v.numbered i) ∙ shifted in
    let start : 0 + first_past cursor ≡ first_past cursor = omega arith in
    rw (sort-numbered _ _ sel counted) (
      payload_numbers sel (All-selected PayloadAgrees (of_job i cursor) db.events v.payloads)
      ∙ counted
      ∙ ap (λ k. count_up k (length (sequences i db.events) - first_past cursor)) start)
  where
    shifted :
        from (first_past cursor) (count_up 0 (length (sequences i db.events)))
        ≡ count_up (0 + first_past cursor) (length (sequences i db.events) - first_past cursor)
    shifted =
        let start : 0 + first_past cursor ≡ first_past cursor = omega arith in
        subst
          (λ k.
            from k (count_up 0 (length (sequences i db.events)))
            ≡ count_up (0 + first_past cursor) (length (sequences i db.events) - first_past cursor))
          start (from-count_up (first_past cursor) 0 (length (sequences i db.events)))
