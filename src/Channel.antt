-- ===== src/Channel.antt =====
-- cobra/channel.h and cobra/channel.cpp: the file descriptor that an event loop watches.
-- A mask of poll(2) events is a record with a flag for each bit that the code names.
pub mod Dispatch
mod Tests
use cobra.Base.{
  ℕ, ◌≡◌, Bool, true, false, not, ◌&&◌, ◌||◌, List, [], ◌∷◌, ◌++◌, ℤ, negsuc, if◌then◌else◌, Option,
  none, some, check, ◌>>=◌, ◌>>◌,
}

pub record Mask : Type 0 where
  pub pollin : Bool
  pub pollpri : Bool
  pub pollout : Bool
  pub pollerr : Bool
  pub pollhup : Bool
  pub pollnval : Bool
  pub pollrdhup : Bool

-- kNoneEvent
abbrev pub none_event : Mask
none_event = record {
  pollin = false;
  pollpri = false;
  pollout = false;
  pollerr = false;
  pollhup = false;
  pollnval = false;
  pollrdhup = false;
}

-- The callbacks that a channel may have.
pub data Callback : Type 0 where
  read_cb write_cb close_cb error_cb : Callback

pub record Channel : Type 0 where
  pub fd : ℕ
  pub events : Mask
  pub revents : Mask
  pub index : ℤ
  pub log_hup : Bool
  pub tied : Bool
  pub event_handling : Bool
  -- whether the callback is set
  pub has_read : Bool
  pub has_write : Bool
  pub has_close : Bool
  pub has_error : Bool

-- Channel::Channel
abbrev pub new : ℕ → Channel
new fd = record {
  fd = fd;
  events = none_event;
  revents = none_event;
  index = negsuc 0;
  log_hup = true;
  tied = false;
  event_handling = false;
  has_read = false;
  has_write = false;
  has_close = false;
  has_error = false;
}

abbrev pub is_none : Mask → Bool
is_none m = not (
    m.pollin
    || (m.pollpri || (m.pollout || (m.pollerr || (m.pollhup || (m.pollnval || m.pollrdhup))))))

-- Channel::isNoneEvent
abbrev pub is_none_event : Channel → Bool
is_none_event c = is_none c.events

-- Channel::isWriting
abbrev pub is_writing : Channel → Bool
is_writing c = c.events.pollout

-- The changes of events_ by enableReading, enableWriting, disableWriting and disableAll. The call of
-- update() that follows each is the event loop's.
abbrev pub with_reading : Channel → Channel
with_reading c = record c { events = mask }
  where
    mask : Mask
    mask = let m = c.events in record m { pollin = true; pollpri = true }

abbrev pub with_writing : Channel → Channel
with_writing c = record c { events = mask }
  where
    mask : Mask
    mask = let m = c.events in record m { pollout = true }

abbrev pub without_writing : Channel → Channel
without_writing c = record c { events = mask }
  where
    mask : Mask
    mask = let m = c.events in record m { pollout = false }

abbrev pub with_nothing : Channel → Channel
with_nothing c = record c { events = none_event }

-- Channel::set_revents
abbrev pub set_revents : Mask → Channel → Channel
set_revents m c = record c { revents = m }

-- Channel::set_index
abbrev pub set_index : ℤ → Channel → Channel
set_index i c = record c { index = i }

-- Channel::tie
abbrev pub tie : Channel → Channel
tie c = record c { tied = true }

-- whether a callback is set
abbrev pub has_callback : Channel → Callback → Bool
has_callback c close_cb = c.has_close
has_callback c error_cb = c.has_error
has_callback c read_cb = c.has_read
has_callback c write_cb = c.has_write

-- A callback that runs when its test holds. The callbacks are a parameter, on the state `S` of what
-- they change; they do not change revents_ or the callbacks themselves, which `c` keeps.
unfoldable pub run_when : {S : Type 0} → (Callback → S → Option S) → Bool → Callback → S → Option S
run_when call true k s = call k s
run_when call false k s = some s

-- Channel::handleEventWithGuard, without its log lines; `mark` sets eventHandling_.
unfoldable pub handle_event_with_guard :
    {S : Type 0} → (Callback → S → Option S) → (Bool → S → S) → Channel → S → Option S
handle_event_with_guard call mark c s = do
  s1 ← run_when call ((m.pollhup && not m.pollin) && c.has_close) close_cb (mark true s)
  s2 ← run_when call ((m.pollerr || m.pollnval) && c.has_error) error_cb s1
  s3 ← run_when call ((m.pollin || (m.pollpri || m.pollrdhup)) && c.has_read) read_cb s2
  s4 ← run_when call (m.pollout && c.has_write) write_cb s3
  some (mark false s4)
  where
    m : Mask
    m = c.revents

-- Channel::handleEvent; `alive` is whether tie_.lock() still finds the owner.
unfoldable pub handle_event :
    {S : Type 0} → (Callback → S → Option S) → (Bool → S → S) → Bool → Channel → S → Option S
handle_event call mark alive c s =
    if c.tied
    then (if alive then handle_event_with_guard call mark c s else some s)
    else handle_event_with_guard call mark c s
