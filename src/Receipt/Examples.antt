-- ===== src/Receipt/Examples.antt =====
-- A Redis that keeps its counters in a function; user 1 with the conversations 10 and 11.
use ara_chat_service.Base.{
  ℕ, zero, suc, ◌+◌, ◌≡◌, refl, List, [], ◌∷◌, Option, none, some, ◌==◌, if◌then◌else◌, arith,
}
use ara_chat_service.Base.Results.{ok}
use ara_chat_service.Redis.Tallies.{RedisTallies, Tally, apply_all, answers, Documented, IsUp}
use ara_chat_service.Redis.{unwrap_or}
use ara_chat_service.Receipt.{
  UnreadKey, unread, total, same_key, increment_unread, reset_unread, reset_counted, get_total,
}
use ara_chat_service.Receipt.Totals.{
  UnreadCall, arrives, reads, perform_all, perform_all-Agrees, arrive_times, reset_counted-late,
  Agrees, sum_of,
}

abbrev pub Store : Type 0
Store = UnreadKey → ℕ

abbrev stored : ℕ → Option ℕ
stored zero = none
stored (suc n) = some (suc n)

abbrev pub redis : RedisTallies Store UnreadKey
redis = record {
  get_connection = λ s. (some tt, s);
  pipe = λ ops s. (some (answers same_key ops s), apply_all same_key ops s);
  get = λ k s. (stored (s k), s);
}

abbrev pub at : Store → Tally UnreadKey
at s = s

stored-some : (v n : ℕ) → stored v ≡ some n → n ≡ v
stored-some zero n e = cc e
stored-some (suc v) n e = cc e

stored_or : (v : ℕ) → unwrap_or 0 (stored v) ≡ v
stored_or zero = refl
stored_or (suc v) = refl

pub laws : Documented same_key redis at
laws = record {
  connected = λ k s e. refl;
  piped = λ ops k s ns can e. refl;
  answered = λ ops s ns can e. cc e;
  gets = λ k s n e. stored-some (s k) n e;
  get_keeps = λ k j s. refl;
}

pub up : IsUp same_key redis at
up = record {
  connects = λ s. refl;
  pipes = λ ops s. (answers same_key ops s, refl);
  reads = λ k s. stored_or (s k);
}

abbrev pub empty : Store
empty k = 0

abbrev calls : List UnreadCall
calls = arrives 1 10 ∷ arrives 1 11 ∷ arrives 2 10 ∷ arrives 1 10 ∷ reads 1 10 ∷ []

perform_all-Agrees_example : Agrees at (10 ∷ 11 ∷ []) 1 (perform_all redis calls empty)
perform_all-Agrees_example =
    perform_all-Agrees redis at laws up (10 ∷ 11 ∷ []) (refl, (refl, tt)) calls empty
      (refl, (refl, (refl, (refl, (refl, tt))))) (λ v. refl) 1

one_is_left : (get_total (record { cache = some redis }) 1 (perform_all redis calls empty)).0 ≡ ok 1
unfolding get_total increment_unread reset_unread
one_is_left = refl

abbrev waiting : Store
waiting (unread u c) = if u == 1 then (if c == 10 then 2 else 0) else 0
waiting (total u) = if u == 1 then 2 else 0

reset_counted-late_example :
    let after : Store = (reset_counted redis 1 10 2 (arrive_times redis 1 10 3 waiting)).1 in
    (after (total 1) ≡ sum_of at (10 ∷ 11 ∷ []) 1 after + 3) × (after (unread 1 10) ≡ 0)
reset_counted-late_example =
    reset_counted-late redis at laws up (10 ∷ 11 ∷ []) (refl, (refl, tt)) 1 10 3 waiting refl
      (omega arith) refl
