-- ===== src/Reorg/Halt.antt =====
-- HaltManager (go-indexer/indexer/halt-manager.go): one flag, and a channel that holds one token.
use vault_indexer.Prelude.{ℕ, suc, ◌≤◌, ◌≡◌, refl, Bool, true, false, List, [], ◌∷◌, arith}

-- `token` says that the channel holds a value, and `closed` that it is closed.
pub record HaltManager : Type 0 where
  pub token : Bool
  pub closed : Bool
  pub is_halted : Bool

abbrev pub new_halt_manager : HaltManager
new_halt_manager = record { token = false; closed = false; is_halted = false }

-- What a call does: nothing, a receive from the channel, or the panic of a send on a closed one.
pub data Effect : Type 0 where
  silent received panicked : Effect

-- The send has a default case: a second token is dropped.
send : HaltManager → HaltManager × Effect
send h = elim h.closed [
  | true ↦ (h, panicked)
  | false ↦ (record { token = true; closed = false; is_halted = h.is_halted }, silent)
]

unfoldable pub halt : HaltManager → HaltManager × Effect
unfolding send
halt h = elim h.is_halted [
  | true ↦ (h, silent)
  | false ↦ send (record { token = h.token; closed = h.closed; is_halted = true })
]

-- A receive that is ready: the token, or a closed channel.
unfoldable pub receive : HaltManager → HaltManager × Effect
receive h = elim h.token [
  | true ↦ (record { token = false; closed = h.closed; is_halted = h.is_halted }, received)
  | false ↦ elim h.closed [ true ↦ (h, received) | false ↦ (h, silent) ]
]

-- WaitHalted: whether a receive was ready before the timeout.
unfoldable pub wait_halted : HaltManager → HaltManager × Effect
wait_halted h = receive h

unfoldable close : HaltManager → HaltManager × Effect
close h = elim h.is_halted [
  | true ↦ (h, silent)
  | false ↦ elim h.closed [
    | true ↦ (h, panicked)
    | false ↦ (record { token = h.token; closed = true; is_halted = true }, silent)
  ]
]

-- A call of the manager: by the reorg handler, by a processor that looks whether its HaltChannel is
-- ready, or by the indexer as it stops.
pub data Call : Type 0 where
  halts waits closes : Call
  looks : Call

unfoldable pub call : Call → HaltManager → HaltManager × Effect
unfolding halt wait_halted close receive
call halts h = halt h
call waits h = wait_halted h
call closes h = close h
call looks h = receive h

-- The effects of the calls, in order.
unfoldable pub calls : List Call → HaltManager → List Effect
calls [] h = []
calls (c ∷ cs) h = (call c h).1 ∷ calls cs (call c h).0

abbrev pub receipts : List Effect → ℕ
receipts [] = 0
receipts (received ∷ es) = suc (receipts es)
receipts (silent ∷ es) = receipts es
receipts (panicked ∷ es) = receipts es

abbrev NoPanic : List Effect → Type 0
NoPanic [] = Unit
NoPanic (received ∷ es) = NoPanic es
NoPanic (silent ∷ es) = NoPanic es
NoPanic (panicked ∷ es) = ⊥

abbrev pub closings : List Call → ℕ
closings [] = 0
closings (closes ∷ cs) = suc (closings cs)
closings (halts ∷ cs) = closings cs
closings (waits ∷ cs) = closings cs
closings (looks ∷ cs) = closings cs

-- The states of an open manager: before Halt, after it, and after the token was taken.
abbrev open_manager : Bool → Bool → HaltManager
open_manager token is_halted = record { token = token; closed = false; is_halted = is_halted }

taken : (cs : List Call) → closings cs ≡ 0 → receipts (calls cs (open_manager false true)) ≡ 0
unfolding calls call
taken [] h = refl
taken (halts ∷ cs) h = taken cs h
taken (waits ∷ cs) h = taken cs h
taken (closes ∷ cs) h = absurd (omega arith)
taken (looks ∷ cs) h = taken cs h

waiting : (cs : List Call) → closings cs ≡ 0 → receipts (calls cs (open_manager true true)) ≤ 1
unfolding calls call
waiting [] h = omega arith
waiting (halts ∷ cs) h = waiting cs h
waiting (waits ∷ cs) h = let t = taken cs h in omega (arith, t)
waiting (closes ∷ cs) h = absurd (omega arith)
waiting (looks ∷ cs) h = let t = taken cs h in omega (arith, t)

-- Whatever the order of the calls, Halt reaches one listener at most while the channel is open: either
-- one processor or WaitHalted itself takes the only token, and every other receive finds nothing.
pub halt-reaches_one : (cs : List Call) → closings cs ≡ 0 → receipts (calls cs new_halt_manager) ≤ 1
unfolding calls call
halt-reaches_one [] h = omega arith
halt-reaches_one (halts ∷ cs) h = waiting cs h
halt-reaches_one (waits ∷ cs) h = halt-reaches_one cs h
halt-reaches_one (closes ∷ cs) h = absurd (omega arith)
halt-reaches_one (looks ∷ cs) h = halt-reaches_one cs h

-- A WaitHalted right after Halt succeeds although no processor has looked, and no processor ever learns
-- of the halt from the channel then.
wait-takes_token :
    (cs : List Call)
    → closings cs ≡ 0
    → (es : List Effect) × (calls (halts ∷ waits ∷ cs) new_halt_manager ≡ silent ∷ received ∷ es)
      × (receipts es ≡ 0)
unfolding calls call
wait-takes_token cs h = (calls cs (open_manager false true), refl, taken cs h)

halted-NoPanic :
    (cs : List Call) (t c : Bool)
    → NoPanic (calls cs (record { token = t; closed = c; is_halted = true }))
unfolding calls call
halted-NoPanic [] t c = tt
halted-NoPanic (halts ∷ cs) t c = halted-NoPanic cs t c
halted-NoPanic (closes ∷ cs) t c = halted-NoPanic cs t c
halted-NoPanic (waits ∷ cs) true c = halted-NoPanic cs false c
halted-NoPanic (waits ∷ cs) false true = halted-NoPanic cs false true
halted-NoPanic (waits ∷ cs) false false = halted-NoPanic cs false false
halted-NoPanic (looks ∷ cs) true c = halted-NoPanic cs false c
halted-NoPanic (looks ∷ cs) false true = halted-NoPanic cs false true
halted-NoPanic (looks ∷ cs) false false = halted-NoPanic cs false false

-- No order of the calls makes the manager send on a closed channel, or close one twice.
calls-NoPanic : (cs : List Call) → NoPanic (calls cs new_halt_manager)
unfolding calls call
calls-NoPanic [] = tt
calls-NoPanic (halts ∷ cs) = halted-NoPanic cs true false
calls-NoPanic (closes ∷ cs) = halted-NoPanic cs false true
calls-NoPanic (waits ∷ cs) = calls-NoPanic cs
calls-NoPanic (looks ∷ cs) = calls-NoPanic cs
