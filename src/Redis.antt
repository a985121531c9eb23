-- ===== src/Redis.antt =====
-- The Redis server as the services see it (infrastructure/redis/pool.rs and the redis client): the
-- commands on lists, counters and sets as interfaces, each with what Redis documents of it.
pub mod Chains
pub mod Lists
pub mod Counters
pub mod Sets
pub mod Hashes
pub mod InMemory
pub mod Tallies
use ara_chat_service.Base.{Option, none, some}
use ara_chat_service.Base.Results.{Result, ok, err}
use ara_chat_service.Base.Stateful.{Stateful}

-- A command changes the server's state `S` and answers, or ends in an error (`none`).
abbrev pub Command : Type 0 → Type 0 → Type 0
Command S A = S → Option A × S

abbrev pub or_error : {E A : Type 0} → E → Option A → Result E A
or_error e none = err e
or_error e (some a) = ok a

-- `.await.map_err(…)?`
abbrev pub run : {S E A : Type 0} → E → Command S A → Stateful S E A
run e command s = (or_error e (command s).0, (command s).1)

abbrev pub unwrap_or : {A : Type 0} → A → Option A → A
unwrap_or d none = d
unwrap_or d (some a) = a

-- `.await.unwrap_or(d)`
abbrev pub run_or : {S E A : Type 0} → A → Command S A → Stateful S E A
run_or d command s = (ok (unwrap_or d (command s).0), (command s).1)
