-- ===== src/E2ee/ReplayCache.antt =====
-- class ReplayCache of frontend/src/e2ee.ts: a bounded first-in-first-out set of message ids.
pub mod Fifo
pub mod Memory
use private_chat.Prelude.{
  ℕ, zero, suc, ◌+◌, ◌-◌, ◌*◌, ◌/◌, ◌%◌, ◌^◌, ◌≤◌, ◌<◌, min, ◌≡◌, refl, sym, ap, ap₂, subst, ◌∙◌,
  ◌≢◌, ◌↔◌, ◌⊎◌, inl, inr, Bool, true, false, not, ◌&&◌, ◌||◌, Option, none, some, List, [], ◌∷◌,
  ◌++◌, map, reverse, append-nil, append_assoc, arith, ltb, leb, ◌==◌, if◌then◌else◌, ltb→lt,
  lt→ltb, leb→le, ==_iff, Bool-cases, Option-cases, length, length-append, take, drop, replicate,
  length-replicate, take-length-append, drop-length-append, take-append-drop, length-drop, all, All,
  All-append, All-all, all-All, all_below, all_below_sound, length-map, map-map,
}
use private_chat.Text.{Text}
use private_chat.Collections.{set_has, set_add, set_delete}

pub record ReplayCache : Type 0 where
  pub seen : List Text
  pub queue : List Text
  pub max : ℕ

-- `new ReplayCache(max)`
unfoldable pub create : ℕ → ReplayCache
create max = record { seen = []; queue = []; max = max }

unfoldable pub has : ReplayCache → Text → Bool
has c id = set_has c.seen id

-- `const old = this.queue.shift()!; this.seen.delete(old);`
unfoldable pub evict : ReplayCache → List Text → ReplayCache
evict c [] = c
evict c (old ∷ rest) = record c { seen = set_delete c.seen old; queue = rest }

unfoldable pub bound : ReplayCache → ReplayCache
bound c = if ltb c.max (length c.queue) then evict c c.queue else c

unfoldable pub add : ReplayCache → Text → ReplayCache
add c id =
    if has c id
    then c
    else bound (record c { seen = set_add c.seen id; queue = c.queue ++ id ∷ [] })

unfoldable pub clear : ReplayCache → ReplayCache
clear c = record c { seen = []; queue = [] }

unfoldable pub size : ReplayCache → ℕ
size c = length c.seen
