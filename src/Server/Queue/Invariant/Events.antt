-- ===== src/Server/Queue/Invariant/Events.antt =====
-- The changes of the queue keep the events of each job numbered, and keep the references.
use rotoweave.Base.{
  ℕ, zero, suc, ◌+◌, max, String, ◌≡◌, refl, ap, ◌∙◌, List, [], ◌∷◌, ◌++◌, arith, str_eq, eq_iff,
  delete_where, Bool-cases, inl, inr, if◌then◌else◌, length,
}
use rotoweave.Server.Queue.Schema.{Event}
use rotoweave.Server.Queue.Statements.{next_sequence}
use rotoweave.Server.Queue.Invariant.{sequences, count_up}

-- One above the largest number, or 0.
next_of : List ℕ → ℕ
next_of [] = 0
next_of (n ∷ ns) = max (suc n) (next_of ns)

next_sequence-eq : (i : String) (es : List Event) → next_sequence i es ≡ next_of (sequences i es)
unfolding next_sequence next_of
next_sequence-eq i [] = refl
next_sequence-eq i (e ∷ es) = elim (Bool-cases (str_eq e.job_id i)) [
  | inl h ↦ rw (h, next_sequence-eq i es)
  | inr h ↦ rw (h, next_sequence-eq i es)
]

next_of-count_up : (k n : ℕ) → next_of (count_up k (suc n)) ≡ k + suc n
unfolding next_of
next_of-count_up k zero = omega arith
next_of-count_up k (suc n) = omega (arith, next_of-count_up (suc k) n)

next_of-zero : (n : ℕ) → next_of (count_up 0 n) ≡ n
unfolding next_of
next_of-zero zero = refl
next_of-zero (suc n) = omega (arith, next_of-count_up 0 n)

pub next_sequence-length :
    (i : String) (es : List Event)
    → sequences i es ≡ count_up 0 (length (sequences i es))
    → next_sequence i es ≡ length (sequences i es)
next_sequence-length i es h =
    next_sequence-eq i es ∙ ap next_of h ∙ next_of-zero (length (sequences i es))

pub count_up-snoc : (k n : ℕ) → count_up k n ++ (k + n) ∷ [] ≡ count_up k (suc n)
count_up-snoc k zero = let e : k + 0 ≡ k = omega arith in rw e
count_up-snoc k (suc n) =
    let e : k + suc n ≡ suc k + n = omega arith in
    rw e (ap (λ xs. k ∷ xs) (count_up-snoc (suc k) n))

pub sequences-append :
    (i : String) (es : List Event) (e : Event)
    → sequences i (es ++ e ∷ [])
      ≡ (if str_eq e.job_id i then sequences i es ++ e.sequence ∷ [] else sequences i es)
sequences-append i [] e = ground arith
sequences-append i (d ∷ es) e = ground (arith, sequences-append i es e)

pub sequences-delete :
    (k i : String) (es : List Event)
    → sequences i (delete_where (λ (e : Event). str_eq e.job_id k) es)
      ≡ (if str_eq k i then [] else sequences i es)
sequences-delete k i [] = ground arith
sequences-delete k i (e ∷ es) =
    ground (arith, sequences-delete k i es, eq_iff e.job_id k, eq_iff e.job_id i, eq_iff k i)
