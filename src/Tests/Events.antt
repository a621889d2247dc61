-- ===== src/Tests/Events.antt =====
-- Event flags at concrete inputs.
use Prim.Native.Nat.{bit_or}
use raw_os.Shared.{◌≡◌, refl, []}
use raw_os.Kernel.{Kernel, event_obj, success, set_event}
use raw_os.Event.{event_set}
use raw_os.Event.Granted.{Granted}
use raw_os.Event.Wake.{event_set-Granted}
use raw_os.Tests.{waiting_kernel, waiting_kernel-WellFormed}

abbrev k0 : Kernel
k0 = waiting_kernel event_obj

event_set-Granted_example :
    let current = bit_or (k0.events 100).flags 3 in
    let k1 = set_event k0 100 (record { flags = current }) in
    let (k', status) = event_set k0 100 3 0 in
    Granted k1 100 current [] (k0.block_list 100) k' × (status ≡ success)
event_set-Granted_example =
    event_set-Granted k0 100 3 0 (waiting_kernel-WellFormed event_obj) refl refl
