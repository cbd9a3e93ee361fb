-- ===== src/Util/Guards.antt =====
-- embassy/src/util/drop_bomb.rs and on_drop.rs: values whose drop does something, unless they are
-- defused. `S` is the state of the program, and a drop that panics is `none`.
use embassy.Base.{Option, none, some}

pub data DropBomb : Type 0 where
  bomb : DropBomb

unfoldable pub new_bomb : DropBomb
new_bomb = bomb

-- `mem::forget` runs no drop.
unfoldable pub defuse_bomb : {S : Type 0} → DropBomb → S → Option S
defuse_bomb b s = some s

unfoldable pub drop_bomb : {S : Type 0} → DropBomb → S → Option S
drop_bomb b s = none

pub record OnDrop (S : Type 0) : Type 0 where
  pub f : S → S

unfoldable pub new_on_drop : {S : Type 0} → (S → S) → OnDrop S
new_on_drop f = record { f = f }

unfoldable pub defuse_on_drop : {S : Type 0} → OnDrop S → S → Option S
defuse_on_drop o s = some s

unfoldable pub drop_on_drop : {S : Type 0} → OnDrop S → S → Option S
drop_on_drop o s = some (o.f s)
