-- ===== src/Queue/Order.antt =====
-- EventLog.Less is a strict order that compares any two events with different positions in the chain.
use vault_indexer.Prelude.{◌≡◌, true, false, arith, subst, Option, none, some}
use vault_indexer.Queue.{EventLog, less, less_options}

-- `a` is not behind `b`: the order that a heap keeps.
abbrev pub Before : EventLog → EventLog → Type 0
Before a b = less b a ≡ false

Before-trans : (a b c : EventLog) → Before a b → Before b c → Before a c
unfolding less
Before-trans a b c h k = ground arith

Before-of_less : (a b : EventLog) → less a b ≡ true → Before a b
unfolding less
Before-of_less a b h = ground arith

-- The same of what stands at two indices; nothing stands behind an index that is out of range.
abbrev pub InOrder : Option EventLog → Option EventLog → Type 0
InOrder none y = Unit
InOrder (some a) none = Unit
InOrder (some a) (some b) = Before a b

pub InOrder-trans :
    (x y z : Option EventLog) (b : EventLog) → y ≡ some b → InOrder x y → InOrder y z → InOrder x z
InOrder-trans none y z b e h k = tt
InOrder-trans (some a) y none b e h k = tt
InOrder-trans (some a) y (some c) b e h k =
    Before-trans a b c (subst (λ y. InOrder (some a) y) e h) (subst (λ y. InOrder y (some c)) e k)

pub InOrder-of_less : (x y : Option EventLog) → less_options x y ≡ true → InOrder x y
InOrder-of_less none y h = tt
InOrder-of_less (some a) none h = tt
InOrder-of_less (some a) (some b) h = Before-of_less a b h

pub InOrder-of_not_less : (x y : Option EventLog) → less_options y x ≡ false → InOrder x y
InOrder-of_not_less none y h = tt
InOrder-of_not_less (some a) none h = tt
InOrder-of_not_less (some a) (some b) h = h
