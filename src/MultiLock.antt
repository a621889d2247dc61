-- ===== src/MultiLock.antt =====
-- extension/lib/raw_mlock.c: 32 locks in an event, one for each flag that is set while its lock is free.
-- `mlock` is the address of the event in the `RAW_MLOCK`.
use raw_os.Shared.{ℕ, ◌^◌, ◌%◌}
use raw_os.Kernel.{Kernel, RawOsError, Outcome, u32_mod}
use raw_os.Event.{raw_event_create, raw_event_get, raw_event_set, raw_event_delete}

-- `1 << num`
abbrev lock_flag : ℕ → ℕ
lock_flag num = 2 ^ num % u32_mod

-- `RAW_AND_CLEAR`, `RAW_OR`
abbrev and_clear : ℕ
and_clear = 3

abbrev or_flags : ℕ
or_flags = 0

-- `flag` is the address of the local variable that takes the flags.
pub raw_mlock : Kernel → (mlock num wait_option flag : ℕ) → Kernel × Outcome
raw_mlock k mlock num wait_option flag =
    raw_event_get k mlock (lock_flag num) and_clear flag wait_option

pub raw_munlock : Kernel → (mlock num : ℕ) → Kernel × RawOsError
raw_munlock k mlock num = raw_event_set k mlock (lock_flag num) or_flags

pub raw_mlock_create : Kernel → (mlock : ℕ) → Kernel × RawOsError
raw_mlock_create k mlock = raw_event_create k mlock 4294967295

pub raw_mlock_delete : Kernel → (mlock : ℕ) → Kernel × RawOsError
raw_mlock_delete k mlock = raw_event_delete k mlock
