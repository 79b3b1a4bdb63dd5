-- ===== src/Coordinator/Drain.antt =====
-- What the drain of the event queue changes: the rails, the obstacle flag and the last command.
use desky.Prelude.{ℕ, ◌≡◌, arith, List, [], ◌∷◌, Each, Each-append}
use desky.Coordinator.{SystemEvent, Coord, Effect, note_command, Edges, drain_one, drain}

-- The members that the drain leaves alone.
pub record IsKept (c d : Coord) : Type 0 where
  pub mode : d.mode ≡ c.mode
  pub sys_mode : d.sys_mode ≡ c.sys_mode
  pub active : d.active ≡ c.active
  pub emergency_latched : d.emergency_latched ≡ c.emergency_latched
  pub expr : d.expr ≡ c.expr
  pub has_safety : d.has_safety ≡ c.has_safety
  pub last_safety : d.last_safety ≡ c.last_safety

abbrev pub IsNote : Effect → Type 0
IsNote (note_command v w now) = Unit
IsNote e = ⊥

drain_one-IsKept :
    (c : Coord) (e : Edges) (now : ℕ) (ev : SystemEvent) → IsKept c (drain_one c e now ev).0
unfolding drain_one
drain_one-IsKept c e now ev = ground arith

drain_one-IsNote :
    (c : Coord) (e : Edges) (now : ℕ) (ev : SystemEvent) → Each IsNote (drain_one c e now ev).2
unfolding drain_one
drain_one-IsNote c e now ev = ground arith

IsKept-trans : {a b c : Coord} → IsKept a b → IsKept b c → IsKept a c
IsKept-trans h k = ground arith

pub drain-IsKept :
    (c : Coord) (e : Edges) (now : ℕ) (evs : List SystemEvent) → IsKept c (drain c e now evs).0
unfolding drain
drain-IsKept c e now [] = ground arith
drain-IsKept c e now (ev ∷ evs) =
    let s = drain_one c e now ev in
    IsKept-trans (drain_one-IsKept c e now ev) (drain-IsKept s.0 s.1 now evs)

pub drain-IsNote :
    (c : Coord) (e : Edges) (now : ℕ) (evs : List SystemEvent) → Each IsNote (drain c e now evs).2
unfolding drain
drain-IsNote c e now [] = tt
drain-IsNote c e now (ev ∷ evs) =
    let s = drain_one c e now ev in
    Each-append IsNote s.2 (drain s.0 s.1 now evs).2 (drain_one-IsNote c e now ev)
      (drain-IsNote s.0 s.1 now evs)
