-- ===== src/System/Tally.antt =====
-- The counters of a thread that serves requests, and those of a pool.
use sa_wa.Base.{
  ℕ, zero, suc, ◌+◌, ◌≡◌, ◌≢◌, ◌<◌, refl, ap, ◌∙◌, List, [], ◌∷◌, ◌++◌, length, get_or, arith, ◌==◌,
  if◌then◌else◌, Bool-cases, inl, inr, ==_iff, length-set, get_or-set_self, get_or-set_other,
}
use sa_wa.Thread.{ConnectionThread, update_screen, connection_thread}
use sa_wa.Pool.{new_record}
use sa_wa.Pool.Counting.{IsCounter}
use sa_wa.Sawa.Protocol.{Request, info, read, write, answer, answers}
use sa_wa.Sawa.Refinement.{column}
use sa_wa.Sawa.Serving.{tally}

-- How many of the requests count in a column.
unfoldable pub count_of : ℕ → List Request → ℕ
count_of i [] = 0
count_of i (r ∷ rs) = (if column r == i then 1 else 0) + count_of i rs

pub count_of_append :
    (i : ℕ) (rs rs' : List Request) → count_of i (rs ++ rs') ≡ count_of i rs + count_of i rs'
unfolding count_of
count_of_append i [] rs' = omega arith
count_of_append i (r ∷ rs) rs' = omega (arith, count_of_append i rs rs')

pub answers_append :
    (nb : ℕ) (disk : List ℕ) (rs rs' : List Request)
    → (answers nb disk (rs ++ rs')).0 ≡ (answers nb (answers nb disk rs).0 rs').0
unfolding answers
answers_append nb disk [] rs' = refl
answers_append nb disk (r ∷ rs) rs' = answers_append nb (answer nb disk r).0 rs rs'

-- Whether a thread has not three counters of requests.
unfoldable pub misfit : ConnectionThread → ℕ
misfit t = if length t.info == 3 then 0 else 1

abbrev pub requests : ℕ → ConnectionThread → ℕ
requests i t = get_or t.info i 0

pub misfit_zero : (t : ConnectionThread) → misfit t ≡ 0 → length t.info ≡ 3
unfolding misfit
misfit_zero t e = ground arith

pub misfit_fits : (t t' : ConnectionThread) → length t'.info ≡ length t.info → misfit t' ≡ misfit t
unfolding misfit
misfit_fits t t' e = ap (λ n. if n == 3 then 0 else 1) e

column_below : (r : Request) → column r < 3
column_below info = omega arith
column_below (read offset size) = omega arith
column_below (write offset bytes) = omega arith

-- Between these records of a thread only the counters of requests have changed, each by so much.
pub record Tallied (added : ℕ → ℕ) (t t' : ConnectionThread) : Type 0 where
  pub nb_eq : t'.nb ≡ t.nb
  pub next_eq : t'.next_all ≡ t.next_all
  pub sock_eq : t'.client_sock ≡ t.client_sock
  pub connections_eq : t'.nb_connections ≡ t.nb_connections
  pub fits : length t'.info ≡ length t.info
  pub raised : (i : ℕ) → i < 3 → requests i t' ≡ requests i t + added i

abbrev pub one_in : ℕ → ℕ → ℕ
one_in c i = if c == i then 1 else 0

update_screen-requests :
    (c : ℕ) (t : ConnectionThread) (i : ℕ)
    → c < 3
    → length t.info ≡ 3
    → i < 3
    → requests i (update_screen t c) ≡ requests i t + one_in c i
unfolding update_screen
update_screen-requests c t i below fits h = elim (Bool-cases (c == i)) [
  | inl here ↦
      let e : c ≡ i = (==_iff c i).0 here in
      rw (here, ← e)
        (get_or-set_self t.info c (get_or t.info c 0 + 1) 0 (omega (arith, fits, below)))
  | inr there ↦
      let ne : c ≢ i = ground arith in
      rw there (get_or-set_other t.info c i (get_or t.info c 0 + 1) 0 ne ∙ omega arith)
]

pub Tallied-refl : (t : ConnectionThread) → Tallied (λ i. 0) t t
Tallied-refl t = record {
  nb_eq = refl;
  next_eq = refl;
  sock_eq = refl;
  connections_eq = refl;
  fits = refl;
  raised = λ i h. omega arith;
}

pub update_screen-fits :
    (t : ConnectionThread) (c : ℕ) → length (update_screen t c).info ≡ length t.info
unfolding update_screen
update_screen-fits t c = length-set t.info c (get_or t.info c 0 + 1)

-- A request is counted in front of others.
pub Tallied-update_screen :
    (added : ℕ → ℕ) (c : ℕ) (t t' : ConnectionThread)
    → c < 3
    → length t.info ≡ 3
    → Tallied added (update_screen t c) t'
    → Tallied (λ i. one_in c i + added i) t t'
unfolding update_screen
Tallied-update_screen added c t t' below fits v = record {
  nb_eq = v.nb_eq;
  next_eq = v.next_eq;
  sock_eq = v.sock_eq;
  connections_eq = v.connections_eq;
  fits = v.fits ∙ update_screen-fits t c;
  raised = λ i h. omega (arith, v.raised i h, update_screen-requests c t i below fits h);
}

pub tally-Tallied :
    (rs : List Request) (t : ConnectionThread)
    → length t.info ≡ 3
    → Tallied (λ i. count_of i rs) t (tally rs t)
unfolding tally count_of
tally-Tallied [] t fits = Tallied-refl t
tally-Tallied (r ∷ rs) t fits =
    Tallied-update_screen (λ i. count_of i rs) (column r) t (tally rs (update_screen t (column r)))
      (column_below r) fits
      (tally-Tallied rs (update_screen t (column r)) (update_screen-fits t (column r) ∙ fits))

pub nb_connections-IsCounter : IsCounter (λ t. t.nb_connections) 1
unfolding new_record connection_thread
nb_connections-IsCounter = record {
  new = λ pool sock. refl;
  again = λ t sock. refl;
  kept = λ pool t. refl;
}

zero_info : (i : ℕ) → get_or {A = ℕ} (0 ∷ 0 ∷ 0 ∷ []) i 0 ≡ 0
zero_info zero = refl
zero_info (suc zero) = refl
zero_info (suc (suc zero)) = refl
zero_info (suc (suc (suc i))) = refl

pub requests-IsCounter : (i : ℕ) → IsCounter (requests i) 0
unfolding new_record connection_thread
requests-IsCounter i = record {
  new = λ pool sock. zero_info i;
  again = λ t sock. omega arith;
  kept = λ pool t. refl;
}

pub misfit-IsCounter : IsCounter misfit 0
unfolding new_record connection_thread misfit
misfit-IsCounter = record {
  new = λ pool sock. refl;
  again = λ t sock. omega arith;
  kept = λ pool t. refl;
}
