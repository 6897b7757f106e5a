-- ===== src/Indexer/Exits.antt =====
-- How the process ends.
use vault_indexer.Prelude.{ℕ, ◌≡◌, refl, sym, subst, ◌∙◌, Bool, true, false, ltb, leb, arith}
use vault_indexer.Indexer.{
  Stage, idle, marking, shutting, cancelling, closing_errors, closing_client, closing_database,
  exiting, Ending, running, exited, panicked, System, launched, Step, Reach, here, later,
}

abbrev line_of : Stage → ℕ
line_of idle = 0
line_of marking = 1
line_of shutting = 2
line_of cancelling = 3
line_of closing_errors = 4
line_of closing_client = 5
line_of closing_database = 6
line_of exiting = 7

-- What Stop has done before a line of its body.
abbrev ClosingAt : ℕ → System → Type 0
ClosingAt n s =
    (s.own_cancelled ≡ ltb 3 n)
    × (s.errors_open ≡ leb n 4)
    × (s.client_open ≡ leb n 5)
    × (s.database_open ≡ leb n 6)

abbrev Closing : System → Type 0
Closing s = ClosingAt (line_of s.stage) s

closing_at :
    (s : System) {stage : Stage} → Closing s → s.stage ≡ stage → ClosingAt (line_of stage) s
closing_at s c p = subst (λ z. ClosingAt (line_of z) s) p c

Step-Closing : {s t : System} → Closing s → Step s t → Closing t
Step-Closing c (Step.starts p) = c
Step-Closing c (Step.start_fails p) = c
Step-Closing c Step.signalled = c
Step-Closing c Step.part_stops = c
Step-Closing c (Step.handles_reorg p) = c
Step-Closing c (Step.listener_leaves p q) = c
Step-Closing c (Step.sends_error p q) = c
Step-Closing c (Step.sends_on_closed p) = c
Step-Closing {s} c (Step.calls_stop p q) = closing_at s c p
Step-Closing {s} c (Step.marks p) = closing_at s c p
Step-Closing {s} c (Step.shuts p) = closing_at s c p
Step-Closing {s} c (Step.cancels p) = let d = closing_at s c p in (refl, d.1, d.2, d.3)
Step-Closing {s} c (Step.closes_errors p) = let d = closing_at s c p in (d.0, refl, d.2, d.3)
Step-Closing {s} c (Step.closes_client p) = let d = closing_at s c p in (d.0, d.1, refl, d.3)
Step-Closing {s} c (Step.closes_database p) = let d = closing_at s c p in (d.0, d.1, d.2, refl)
Step-Closing c (Step.exits p) = c
Step-Closing c (Step.serve_returns p) = c

Reach-Closing : {s : System} → Reach launched s → Closing s
Reach-Closing here = (refl, refl, refl, refl)
Reach-Closing (later r e st) = Step-Closing (Reach-Closing r) st

-- What holds at an end of the process.
abbrev pub Ends : Ending → System → Type 0
Ends running s = Unit
Ends (exited c) s =
    (c ≡ 1)
    × (s.own_cancelled ≡ true)
    × (s.errors_open ≡ false)
    × (s.client_open ≡ false)
    × (s.database_open ≡ false)
Ends panicked s = (s.own_cancelled ≡ true) × (s.errors_open ≡ false)

cancelled_before :
    (n : ℕ) (own errs : Bool) → own ≡ ltb 3 n → errs ≡ leb n 4 → errs ≡ false → own ≡ true
cancelled_before n own errs p q h = ground arith

goes_on-Ends : (s t : System) → s.ending ≡ running → t.ending ≡ s.ending → Ends t.ending t
goes_on-Ends s t r e = subst (λ z. Ends z t) (sym (e ∙ r)) tt

Step-Ends : {s t : System} → Closing s → s.ending ≡ running → Step s t → Ends t.ending t
Step-Ends {s} {t} c r (Step.starts p) = goes_on-Ends s t r refl
Step-Ends {s} {t} c r (Step.start_fails p) = goes_on-Ends s t r refl
Step-Ends {s} {t} c r Step.signalled = goes_on-Ends s t r refl
Step-Ends {s} {t} c r Step.part_stops = goes_on-Ends s t r refl
Step-Ends {s} {t} c r (Step.handles_reorg p) = goes_on-Ends s t r refl
Step-Ends {s} {t} c r (Step.listener_leaves p q) = goes_on-Ends s t r refl
Step-Ends {s} {t} c r (Step.sends_error p q) = goes_on-Ends s t r refl
Step-Ends {s} {t} c r (Step.sends_on_closed p) =
    (cancelled_before (line_of s.stage) s.own_cancelled s.errors_open c.0 c.1 p, p)
Step-Ends {s} {t} c r (Step.calls_stop p q) = goes_on-Ends s t r refl
Step-Ends {s} {t} c r (Step.marks p) = goes_on-Ends s t r refl
Step-Ends {s} {t} c r (Step.shuts p) = goes_on-Ends s t r refl
Step-Ends {s} {t} c r (Step.cancels p) = goes_on-Ends s t r refl
Step-Ends {s} {t} c r (Step.closes_errors p) = goes_on-Ends s t r refl
Step-Ends {s} {t} c r (Step.closes_client p) = goes_on-Ends s t r refl
Step-Ends {s} {t} c r (Step.closes_database p) = goes_on-Ends s t r refl
Step-Ends {s} {t} c r (Step.exits p) = let d = closing_at s c p in (refl, d.0, d.1, d.2, d.3)
Step-Ends {s} {t} c r (Step.serve_returns p) = goes_on-Ends s t r refl

-- Whatever the goroutines do, and in whatever order, the process exits only with code 1, with its context
-- cancelled and its error channel and both clients closed; it dies of a panic only behind the cancel and the
-- close of the error channel.
pub exits-Ends : {s : System} → Reach launched s → Ends s.ending s
exits-Ends here = tt
exits-Ends (later r e st) = Step-Ends (Reach-Closing r) e st
