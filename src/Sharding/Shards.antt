-- ===== src/Sharding/Shards.antt =====
-- The shards of infrastructure/sharding/mod.rs: their numbers and their groups.
use native.Mathlib.Nat.{mul_comm}
use ara_chat_service.Base.{
  ℕ, zero, suc, ◌+◌, ◌-◌, ◌*◌, ◌/◌, ◌%◌, ◌≤◌, ◌<◌, ◌≡◌, refl, ◌∙◌, sym, true, false, List, [], ◌∷◌,
  ◌++◌, Option, none, some, ltb, ◌==◌, contains, range_from, inl, inr, range_from-append,
  contains-range_from, arith, ap, ◌&&◌, Bool-cases,
}
use ara_chat_service.Sharding.{
  Hashing, UserSharder, u32, new, shard_group, all_shards, shards_in_group, shard_for_user,
  shard_for_conversation, shard_for_message, is_power_of_two, default_shard_count,
}

power_bound : (n : ℕ) → is_power_of_two n ≡ true → n < u32
power_bound n p = ground (arith, p)

new_count :
    (count : ℕ) (sharder : UserSharder)
    → new count ≡ some sharder
    → (sharder.shard_count ≡ count) × (0 < count) × (count < u32)
unfolding new
new_count count sharder h = elim (Bool-cases (ltb 0 count && is_power_of_two count)) [
  | inl t ↦ ground (arith, rw t at h, power_bound count)
  | inr f ↦ absurd (cc (rw f at h))
]

mod_below : (x n : ℕ) → 0 < n → x % n < n
mod_below x n h = omega arith

-- With a sharder that `new` accepts, the shard of a user, of a conversation and of a message is one
-- of all shards, and a message is on the shard of its conversation.
pub shard_for_bounds :
    (hashing : Hashing) (count : ℕ) (sharder : UserSharder) (id : ℕ)
    → new count ≡ some sharder
    → (contains (shard_for_user hashing sharder id) (all_shards sharder) ≡ true)
      × (contains (shard_for_message hashing sharder id) (all_shards sharder) ≡ true)
      × (shard_for_message hashing sharder id ≡ shard_for_conversation hashing sharder id)
      × (shard_for_user hashing sharder id < count)
unfolding shard_for_user shard_for_message shard_for_conversation all_shards
shard_for_bounds hashing count sharder id h =
    let (e, pos, small) = new_count count sharder h in
    let s : ℕ = hashing.hash_uuid id % u32 % sharder.shard_count in
    let below : s < sharder.shard_count =
      mod_below (hashing.hash_uuid id % u32) sharder.shard_count (omega (arith, e, pos)) in
    let here : contains s (range_from 0 sharder.shard_count) ≡ true =
      ground (arith, contains-range_from s 0 sharder.shard_count) in
    (here, here, refl, omega (arith, below, e))

abbrev pub followed_by : Option (List ℕ) → Option (List ℕ) → Option (List ℕ)
followed_by none ys = none
followed_by (some xs) none = none
followed_by (some xs) (some ys) = some (xs ++ ys)

div_le : (n d : ℕ) → 0 < d → n / d * d ≤ n
div_le n d h = grind arith

times_le : (a b c : ℕ) → a ≤ b → a * c ≤ b * c
times_le a b c h = grind arith

plus_one : (a b : ℕ) → (a + 1) * b ≡ a * b + b
plus_one a b = grind arith

suc_times : (a b : ℕ) → suc a * b ≡ b + a * b
suc_times a b = grind arith

-- The shards of the groups, one group after the other.
abbrev pub collect : UserSharder → ℕ → List ℕ → Option (List ℕ)
collect sharder group_count [] = some []
collect sharder group_count (g ∷ gs) =
    followed_by (shards_in_group sharder g group_count) (collect sharder group_count gs)

group_end :
    (count group_count g : ℕ)
    → g < group_count
    → g * (count / group_count) + count / group_count ≤ count
group_end count group_count g h =
    let per : ℕ = count / group_count in
    let whole : per * group_count ≤ count = div_le count group_count (omega arith) in
    let part : (g + 1) * per ≤ group_count * per = times_le (g + 1) group_count per (omega arith) in
    let one : (g + 1) * per ≡ g * per + per = plus_one g per in
    let swap : group_count * per ≡ per * group_count = mul_comm group_count per in
    omega (arith, whole, part, one, swap)

in_group :
    (sharder : UserSharder) (group_count g : ℕ)
    → sharder.shard_count < u32
    → g < group_count
    → shards_in_group sharder g group_count
      ≡ some
          (range_from (g * (sharder.shard_count / group_count)) (sharder.shard_count / group_count))
unfolding shards_in_group
in_group sharder group_count g small h =
    let per : ℕ = sharder.shard_count / group_count in
    let fits : g * per + per < u32 = omega (arith, group_end sharder.shard_count group_count g h) in
    let start : (g * per) % u32 ≡ g * per = omega (arith, fits) in
    let end : (g * per + per) % u32 ≡ g * per + per = omega (arith, fits) in
    let width : g * per + per - g * per ≡ per = omega arith in
    let some_group : (group_count == 0) ≡ false = ground arith in
    rw (some_group, start, end, width) refl

collect_from :
    (sharder : UserSharder) (group_count g n : ℕ)
    → sharder.shard_count < u32
    → g + n ≤ group_count
    → collect sharder group_count (range_from g n)
      ≡ some (
          range_from
            (g * (sharder.shard_count / group_count))
            (n * (sharder.shard_count / group_count)))
collect_from sharder group_count g zero small h =
    let e : 0 * (sharder.shard_count / group_count) ≡ 0 = omega arith in rw e refl
collect_from sharder group_count g (suc n) small h =
    let per : ℕ = sharder.shard_count / group_count in
    let e : suc n * per ≡ per + n * per = suc_times n per in
    let f : (g + 1) * per ≡ g * per + per = plus_one g per in
    rw
      (
        in_group sharder group_count g small (omega arith),
        collect_from sharder group_count (g + 1) n small (omega arith),
        e,
        f,
      )
      (ap some (range_from-append (g * per) per (n * per)))

-- The groups of a sharder that `new` accepts, one after the other, are the shards below the largest
-- multiple of the number of groups, each once and in order.
pub collect-groups :
    (count group_count : ℕ) (sharder : UserSharder)
    → new count ≡ some sharder
    → collect sharder group_count (range_from 0 group_count)
      ≡ some (range_from 0 (group_count * (count / group_count)))
collect-groups count group_count sharder h =
    let (e, pos, small) = new_count count sharder h in
    let z : 0 * (sharder.shard_count / group_count) ≡ 0 = omega arith in
    rw (← e) (
      rw z at
        (collect_from sharder group_count 0 group_count (omega (arith, e, small)) (omega arith)))

-- Of the default shards a shard is in the group that `shard_group` names, and in no other of the 16.
pub shards_in_group-shard_group :
    (shard group : ℕ) (shards : List ℕ)
    → group < 16
    → shards_in_group (record { shard_count = default_shard_count }) group 16 ≡ some shards
    → contains shard shards ≡ (shard_group shard == group)
unfolding shards_in_group shard_group
shards_in_group-shard_group shard group shards h e =
    let e' : some (range_from (group * 64) 64) ≡ some shards =
      sym (in_group (record { shard_count = default_shard_count }) 16 group (omega arith) h) ∙ e in
    ground (arith, e', contains-range_from shard (group * 64) 64)
