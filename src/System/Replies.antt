-- ===== src/System/Replies.antt =====
-- The responses that a thread of the web server writes for a connection, and the columns that
-- count them.
use sa_wa.Base.{
  ℕ, ◌+◌, ◌≡◌, ◌<◌, refl, sym, ap, ◌∙◌, subst, Bool, List, [], ◌∷◌, ◌++◌, length, arith, Text,
}
use mathlib.Core.List.{append_assoc, append-nil}
use sa_wa.Thread.{ConnectionThread}
use sa_wa.Http.Serve.{Connection}
use sa_wa.Http.Answers.{Response, found, error, missing}
use sa_wa.Http.Reading.{Responses, no_more, one_more}
use sa_wa.System.Tally.{one_in, Tallied, Tallied-refl, Tallied-update_screen, update_screen-fits}

-- A response of the server, and the column that counts it.
pub record Reply : Type 0 where
  pub response : Text
  pub column : ℕ
  pub keep_alive : Bool
  pub keep : Bool
  pub kind : Response keep_alive response column keep

unfoldable pub bytes_of : List Reply → List ℕ
bytes_of [] = []
bytes_of (r ∷ rs) = r.response ++ bytes_of rs

unfoldable pub replies_in : ℕ → List Reply → ℕ
replies_in i [] = 0
replies_in i (r ∷ rs) = one_in r.column i + replies_in i rs

pub bytes_of_append : (rs rs' : List Reply) → bytes_of (rs ++ rs') ≡ bytes_of rs ++ bytes_of rs'
unfolding bytes_of
bytes_of_append [] rs' = refl
bytes_of_append (r ∷ rs) rs' = simp (bytes_of_append rs rs', append_assoc)

pub replies_in_append :
    (i : ℕ) (rs rs' : List Reply) → replies_in i (rs ++ rs') ≡ replies_in i rs + replies_in i rs'
unfolding replies_in
replies_in_append i [] rs' = omega arith
replies_in_append i (r ∷ rs) rs' = omega (arith, replies_in_append i rs rs')

column_below :
    (keep_alive : Bool) (response : Text) (column : ℕ) (keep : Bool)
    → Response keep_alive response column keep
    → column < 3
column_below a r c k (found response body l b) = omega arith
column_below a r c k (error response body l b) = omega arith
column_below a r c k (missing response body l b n) = omega arith

-- What a thread with three counters has written and counted.
pub record Wrote (s s' : Connection) : Type 0 where
  pub replies : List Reply
  pub output_eq : s'.output ≡ s.output ++ bytes_of replies
  pub tallied : Tallied (λ i. replies_in i replies) s.thread s'.thread

pub Responses-Wrote : (s s' : Connection) → Responses s s' → length s.thread.info ≡ 3 → Wrote s s'
unfolding bytes_of replies_in
Responses-Wrote _ _ (no_more s) fits = record {
  replies = [];
  output_eq = sym (append-nil s.output);
  tallied = Tallied-refl s.thread;
}
Responses-Wrote _ _ (one_more s s₁ s₂ keep_alive keep a rest) fits =
    let r : Reply = record {
      response = a.response;
      column = a.column;
      keep_alive = keep_alive;
      keep = keep;
      kind = a.kind;
    } in
    let fits₁ : length s₁.thread.info ≡ 3 =
      ap (λ (t : ConnectionThread). length t.info) a.counted
      ∙ update_screen-fits s.thread a.column
      ∙ fits in
    let w = Responses-Wrote s₁ s₂ rest fits₁ in
    record {
      replies = r ∷ w.replies;
      output_eq =
          w.output_eq
          ∙ ap (λ o. o ++ bytes_of w.replies) a.written
          ∙ append_assoc s.output a.response (bytes_of w.replies);
      tallied =
          Tallied-update_screen (λ i. replies_in i w.replies) a.column s.thread s₂.thread
            (column_below keep_alive a.response a.column keep a.kind) fits
            (subst (λ t. Tallied (λ i. replies_in i w.replies) t s₂.thread) a.counted w.tallied);
    }
