-- ===== src/Startup/Balance.antt =====
-- netio.c and handler.c: what is acquired at the start is given back, on every path.
use cwnet.Base.{Bool, ◌≡◌, Option, some, ◌⊎◌}
use cwnet.Handler.State.{Handler}
use cwnet.Startup.{Machine, Boot}
use cwnet.Startup.Attempt.{ends, Refused}

-- How `entry` or a part of it ends: all that was acquired is given back, and either the main loop
-- was run, with the serial device set up, and has left `task` in the device node, or something was
-- refused, and the device node is as before.
abbrev pub Ends : Machine → Bool → Option (Unit {0} × Boot) → Boot → Type 0
Ends m task r s =
    (s' : Boot) × (r ≡ some (tt, s'))
    × (s'.held ≡ s.held)
    × (((s'.term_array ≡ ends) × (s'.dn_task ≡ task)) ⊎ (Refused m × (s'.dn_task ≡ s.dn_task)))
