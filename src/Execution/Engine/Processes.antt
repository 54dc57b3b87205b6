-- ===== src/Execution/Engine/Processes.antt =====
-- What `_tear_down` of src/dr_exec/execution/engine.py does to the processes that it signals.
use dr_exec.Prelude.{Bool, true, false, ◌||◌, List, [], ◌∷◌, map, if◌then◌else◌}
use dr_exec.Execution.Engine.Teardown.{
  Signal, group_termination, group_escalation, group_probe, child_termination, child_escalation,
  bounded_wait, reap,
}

-- A process: alive, and ending at once on a termination signal or ignoring it; or ended, by which signal.
pub data Fate : Type 0 where
  alive : Bool → Fate
  terminated killed : Fate

-- The child, and the others of the group that it leads if it leads one.
pub record Processes : Type 0 where
  pub child : Fate
  pub others : List Fate

abbrev terminate : Fate → Fate
terminate (alive true) = terminated
terminate (alive false) = alive false
terminate terminated = terminated
terminate killed = killed

abbrev kill : Fate → Fate
kill (alive ends) = killed
kill terminated = terminated
kill killed = killed

abbrev pub is_alive : Fate → Bool
is_alive (alive ends) = true
is_alive terminated = false
is_alive killed = false

abbrev pub any_alive : List Fate → Bool
any_alive [] = false
any_alive (f ∷ fs) = is_alive f || any_alive fs

-- What a signal does to the processes; the waits and the probe do nothing.
abbrev pub receive : Signal → Processes → Processes
receive group_termination g = record { child = terminate g.child; others = map terminate g.others }
receive group_escalation g = record { child = kill g.child; others = map kill g.others }
receive child_termination g = record g { child = terminate g.child }
receive child_escalation g = record g { child = kill g.child }
receive group_probe g = g
receive bounded_wait g = g
receive reap g = g

abbrev pub receive_all : List Signal → Processes → Processes
receive_all [] g = g
receive_all (x ∷ xs) g = receive_all xs (receive x g)

abbrev pub is_bounded_wait : Signal → Bool
is_bounded_wait bounded_wait = true
is_bounded_wait _ = false

abbrev pub is_reap : Signal → Bool
is_reap reap = true
is_reap _ = false

abbrev pub is_group_probe : Signal → Bool
is_group_probe group_probe = true
is_group_probe _ = false

-- The steps before the first of a kind, and whether there is one.
abbrev pub before : (Signal → Bool) → List Signal → List Signal
before p [] = []
before p (x ∷ xs) = if p x then [] else x ∷ before p xs

abbrev pub has_step : (Signal → Bool) → List Signal → Bool
has_step p [] = false
has_step p (x ∷ xs) = p x || has_step p xs

-- The end of a process: one that ends on the termination signal is not killed.
abbrev pub settle : Fate → Fate
settle (alive true) = terminated
settle (alive false) = killed
settle terminated = terminated
settle killed = killed

abbrev pub settled : Bool → Processes → Processes
settled true g = record { child = settle g.child; others = map settle g.others }
settled false g = record g { child = settle g.child }
