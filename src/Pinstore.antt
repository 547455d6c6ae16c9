-- ===== src/Pinstore.antt =====
-- pinstore.py: the keys that a client has pinned, and the newest naming record that it has seen of each
-- address. The clock is an argument; a file is known by the pins that it holds.
pub mod Laws
pub mod Tofu
use mdp2p.Dict.Sorted.{sort_keys}
use mdp2p.Py.Result.{Result, ◌>>=◌, ok, raise, value_error}
use mdp2p.Prelude.Int.{ℤ, ltb_ℤ, max_ℤ, pos}
use mdp2p.Prelude.{Option, String, Bool, some, false, true, if◌then◌else◌, none, [], not, ◌==◌}
use mdp2p.Naming.Stores.Disk.{File, holds, absent, unreadable}
use mdp2p.Dict.{Dict, lookup, insert, remove}

pub data PinStatus : Type 0 where
  unknown match mismatch rollback : PinStatus

-- One entry, as `pin_key` writes it
pub record Pin : Type 0 where
  pub public_key : String
  pub author : String
  pub first_seen : ℤ
  pub last_seen : ℤ
  pub record_timestamp : Option ℤ

abbrev pub Pins : Type 0
Pins = Dict Pin

-- `load_pinstore(path)`: a file that is no JSON raises.
unfoldable pub load_pinstore : File Pins → Result Pins
load_pinstore absent = ok []
load_pinstore unreadable = raise value_error
load_pinstore (holds d) = ok d

-- `save_pinstore(pinstore, path)`
unfoldable pub save_pinstore : Pins → File Pins
save_pinstore d = holds (sort_keys d)

-- Whether the record is older than the newest one seen.
unfoldable pub is_older : Option ℤ → Option ℤ → Bool
is_older (some t) (some seen) = ltb_ℤ t seen
is_older _ _ = false

unfoldable pub check_entry : String → Option ℤ → Option Pin → PinStatus
check_entry key t none = unknown
check_entry key t (some e) =
    if not (e.public_key == key)
    then mismatch
    else if is_older t e.record_timestamp
    then rollback
    else match

-- `check_pin(pinstore, uri, public_key_b64, record_timestamp)`
unfoldable pub check_pin : Pins → String → String → Option ℤ → PinStatus
check_pin d uri key t = check_entry key t (lookup uri d)

unfoldable pub first_seen_of : Option Pin → ℤ → ℤ
first_seen_of none now = now
first_seen_of (some e) now = e.first_seen

unfoldable pub new_pin : String → String → Option ℤ → ℤ → Option Pin → Pin
new_pin key author t now existing = record {
  public_key = key;
  author = author;
  first_seen = first_seen_of existing now;
  last_seen = now;
  record_timestamp = t;
}

-- `pin_key(uri, public_key_b64, author, path, record_timestamp)`
unfoldable pub pin_key : String → String → String → Option ℤ → ℤ → File Pins → Result (File Pins)
pin_key uri key author t now f = do
  d ← load_pinstore f
  ok (save_pinstore (insert uri (new_pin key author t now (lookup uri d)) d))

unfoldable pub unpin_in : String → Pins → Option Pin → File Pins → Bool × File Pins
unpin_in uri d none f = (false, f)
unpin_in uri d (some e) f = (true, save_pinstore (remove uri d))

-- `unpin_key(uri, path)`
unfoldable pub unpin_key : String → File Pins → Result (Bool × File Pins)
unpin_key uri f = do d ← load_pinstore f; ok (unpin_in uri d (lookup uri d) f)

-- `max(int(record_timestamp), int(entry.get("record_timestamp", 0)))`, if there is a time stamp
unfoldable pub raised_mark : Option ℤ → Option ℤ → Option ℤ
raised_mark none old = old
raised_mark (some t) none = some (max_ℤ t (pos 0))
raised_mark (some t) (some old) = some (max_ℤ t old)

unfoldable pub touch_in : String → Option ℤ → ℤ → Pins → Option Pin → File Pins → File Pins
touch_in uri t now d none f = f
touch_in uri t now d (some e) f = save_pinstore (
    insert uri (record e { last_seen = now; record_timestamp = raised_mark t e.record_timestamp })
      d)

-- `update_pin_last_seen(uri, path, record_timestamp)`
unfoldable pub update_pin_last_seen : String → Option ℤ → ℤ → File Pins → Result (File Pins)
update_pin_last_seen uri t now f = do
  d ← load_pinstore f
  ok (touch_in uri t now d (lookup uri d) f)
