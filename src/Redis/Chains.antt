-- ===== src/Redis/Chains.antt =====
-- Chains of commands that succeed.
use ara_chat_service.Base.{◌≡◌, Option, none, some}
use ara_chat_service.Base.Results.{ok}
use ara_chat_service.Base.Stateful.{Stateful, ◌>>=◌, >>=-eq-ok}
use ara_chat_service.Redis.{Command, run, or_error}

pub or_error-eq-ok :
    {E A : Type 0} (e : E) (o : Option A) (a : A) → or_error e o ≡ ok a → o ≡ some a
or_error-eq-ok e none a h = cc
or_error-eq-ok e (some b) a h = cc

-- A command that a successful chain begins with was answered.
pub run-eq-ok :
    {S E A B : Type 0} (e : E) (c : Command S A) (f : A → Stateful S E B) (s : S) (b : B)
    → ((run e c >>= f) s).0 ≡ ok b
    → (a : A) × ((c s).0 ≡ some a) × ((run e c >>= f) s ≡ f a (c s).1)
run-eq-ok e c f s b h =
    let (a, g, k) = >>=-eq-ok (run e c) f s b h in (a, or_error-eq-ok e (c s).0 a g, k)
