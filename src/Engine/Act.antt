-- ===== src/Engine/Act.antt =====
-- Steps on the desk that may throw: the state that a throw leaves is kept.
use polymarket_live_maker.Prelude.{List, Option, [], none, some, ◌++◌, ◌∷◌}
use polymarket_live_maker.Engine.Store.{Store}
use polymarket_live_maker.Engine.Live.{Ack, Call, Desk}

-- `none` is a throw.
abbrev pub Act : Type 0 → Type 0 → Type 0
Act W A = Desk W → Option A × Desk W

unfoldable pub then_act : {W A B : Type 0} → Option A × Desk W → (A → Act W B) → Option B × Desk W
then_act (none, desk) f = (none, desk)
then_act (some a, desk) f = f a desk

infixl 5 ◌>>=◌ ◌>>◌
abbrev pub ◌>>=◌ : {W A B : Type 0} → Act W A → (A → Act W B) → Act W B
◌>>=◌ m f desk = then_act (m desk) f

abbrev pub ◌>>◌ : {W B : Type 0} → Act W (Unit {0}) → Act W B → Act W B
m >> k = m >>= λ _. k

abbrev pub pure : {W A : Type 0} → A → Act W A
pure a desk = (some a, desk)

abbrev pub change : {W : Type 0} → (Store W → Store W) → Act W (Unit {0})
change f desk = (some tt, record desk { store = f desk.store })

-- A call to the exchange, whose answers may depend on the calls before.
unfoldable pub send : {W : Type 0} → (List (Call W) → Call W → Option Ack) → Call W → Act W Ack
send submit c desk = (submit desk.calls c, record desk { calls = desk.calls ++ (c ∷ []) })
