-- ===== src/Redis/InMemory.antt =====
-- A Redis that keeps its sets as lists, for examples: it does what `Redis.Sets` states.
use Prim.Native.String.{String}
use text.Mathlib.Text.{◌==◌ as str_eq}
use text.Mathlib.TextEquality.{eq_iff}
use ara_chat_service.Base.{
  ◌≡◌, refl, ◌∙◌, sym, ap, Bool, true, false, List, [], ◌∷◌, some, ◌&&◌, if◌then◌else◌, arith,
  length, Bool-cases, inl, inr,
}
use ara_chat_service.Redis.Sets.{
  RedisSets, SetOp, sadd, srem, expire, del, View, apply, apply_all, contains_text, Documented,
}

abbrev pub take_out : String → List String → List String
take_out m [] = []
take_out m (t ∷ ts) = if str_eq m t then take_out m ts else t ∷ take_out m ts

contains-take_out :
    (m n : String) (ts : List String)
    → contains_text n (take_out m ts) ≡ (if str_eq m n then false else contains_text n ts)
contains-take_out m n [] = elim (Bool-cases (str_eq m n)) [ inl h ↦ rw h refl | inr h ↦ rw h refl ]
contains-take_out m n (t ∷ ts) =
    ground (arith, eq_iff m t, eq_iff m n, eq_iff t n, contains-take_out m n ts)

module _ {Key : Type 0} (same : Key → Key → Bool) (listed : List Key) where
  abbrev pub put_in : SetOp Key → (Key → List String) → Key → List String
  put_in (sadd k m) s j = if same k j then m ∷ s j else s j
  put_in (srem k m) s j = if same k j then take_out m (s j) else s j
  put_in (expire k z) s j = s j
  put_in (del k) s j = if same k j then [] else s j

  abbrev pub put_all : List (SetOp Key) → (Key → List String) → Key → List String
  put_all [] s = s
  put_all (op ∷ ops) s = put_all ops (put_in op s)

  abbrev pub at : (Key → List String) → View Key
  at s k m = contains_text m (s k)

  abbrev pub redis : RedisSets (Key → List String) Key
  redis = record {
    get_connection = λ s. (some tt, s);
    pipe = λ ops s. (some tt, put_all ops s);
    smembers = λ k s. (some (s k), s);
    scard = λ k s. (some (length (s k)), s);
    keys = λ s. (some listed, s);
  }

  put_in_lem :
      (op : SetOp Key) (s : Key → List String) (k : Key) (m : String)
      → apply same op (at s) k m ≡ at (put_in op s) k m
  put_in_lem (sadd j n) s k m = ground arith
  put_in_lem (srem j n) s k m = ground (arith, contains-take_out n m (s k))
  put_in_lem (expire j z) s k m = refl
  put_in_lem (del j) s k m = ground arith

  apply_all-same :
      (ops : List (SetOp Key)) (v w : View Key)
      → ((k : Key) (m : String) → v k m ≡ w k m)
      → (k : Key) (m : String) → apply_all same ops v k m ≡ apply_all same ops w k m
  apply_all-same [] v w e k m = e k m
  apply_all-same (op ∷ ops) v w e k m =
      apply_all-same ops (apply same op v) (apply same op w) (one op) k m
    where
      one : (op : SetOp Key) (j : Key) (n : String) → apply same op v j n ≡ apply same op w j n
      one (sadd i x) j n = ap (λ b. if same i j && str_eq x n then true else b) (e j n)
      one (srem i x) j n = ap (λ b. if same i j && str_eq x n then false else b) (e j n)
      one (expire i z) j n = e j n
      one (del i) j n = ap (λ b. if same i j then false else b) (e j n)

  put_all_lem :
      (ops : List (SetOp Key)) (s : Key → List String) (k : Key) (m : String)
      → at (put_all ops s) k m ≡ apply_all same ops (at s) k m
  put_all_lem [] s k m = refl
  put_all_lem (op ∷ ops) s k m =
      put_all_lem ops (put_in op s) k m
      ∙ apply_all-same ops (at (put_in op s)) (apply same op (at s))
          (λ j n. sym (put_in_lem op s j n)) k m

  pub laws : Documented same redis at
  laws = record {
    connected = λ k m s e. refl;
    piped = λ ops k m s e. put_all_lem ops s k m;
    lists = λ k m s texts e. ap (contains_text m) (sym (cc e));
    list_keeps = λ k j m s. refl;
  }
