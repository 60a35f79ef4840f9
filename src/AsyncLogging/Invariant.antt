-- ===== src/AsyncLogging/Invariant.antt =====
-- The two sides of the asynchronous log of base/AsyncLogging.cc, any sequence of their moves, and what
-- holds between them.
use cobra.Base.{
  ℕ, ◌<◌, ◌≡◌, refl, ap, sym, ◌∙◌, false, List, [], ◌∷◌, ◌++◌, append-nil, append_assoc, Option,
  none, some, if◌then◌else◌, ◌>>=◌, length, take, length-replicate, ltb,
}
use cobra.LogStream.{FixedBuffer, as_string}
use cobra.LogStream.Room.{Valid}
use cobra.AsyncLogging.{
  AsyncLogging, Writer, new_buffer, new, begin_thread, or_else, append, contents, turn,
}

-- An event: a line from any thread, or a turn of the writing thread, which holds the mutex while it takes
-- the buffers.
pub data Event : Type 0 where
  line : List ℕ → Event
  writes : Event

-- The two sides, and the lines accepted so far, one after the other.
pub record System : Type 0 where
  pub front : AsyncLogging
  pub back : Writer
  pub accepted : List ℕ

abbrev pub initial : ℕ → System
initial size = record { front = new size; back = begin_thread size; accepted = [] }

-- A line that no buffer can hold is left out.
abbrev pub accept : ℕ → List ℕ → List ℕ
accept size l = if ltb (length l) size then l else []

abbrev pub step : ℕ → List ℕ → Event → System → Option System
step size message (line l) s = do
  front ← append size l s.front
  some (record s { front = front; accepted = s.accepted ++ accept size l })
step size message writes s = do
  (front, back) ← turn message s.front s.back
  some (record s { front = front; back = back })

abbrev pub run : ℕ → List ℕ → List Event → System → Option System
run size message [] s = some s
run size message (e ∷ es) s = step size message e s >>= run size message es

-- A buffer that is empty.
abbrev pub IsEmpty : ℕ → FixedBuffer → Type 0
IsEmpty size b = Valid size b × (b.cur ≡ 0)

abbrev pub AllValid : ℕ → List FixedBuffer → Type 0
AllValid size [] = Unit {0}
AllValid size (b ∷ bs) = Valid size b × AllValid size bs

-- A next buffer is empty; without one, a full buffer waits.
abbrev pub IsNext : ℕ → Option FixedBuffer → List FixedBuffer → Type 0
IsNext size (some b) bs = IsEmpty size b
IsNext size none [] = ⊥
IsNext size none (b ∷ bs) = Unit {0}

abbrev pub IsSpare : ℕ → Option FixedBuffer → Type 0
IsSpare size o = (b : FixedBuffer) × (o ≡ some b) × IsEmpty size b

pub record Inv (size : ℕ) (s : System) : Type 0 where
  pub current : Valid size s.front.current_buffer
  pub next : IsNext size s.front.next_buffer s.front.buffers
  pub buffers : AllValid size s.front.buffers
  pub spare1 : IsSpare size s.back.new_buffer1
  pub spare2 : IsSpare size s.back.new_buffer2
  pub delivered :
      s.back.dropped ≡ false
      → s.back.output ++ (contents s.front.buffers ++ as_string s.front.current_buffer) ≡ s.accepted

pub new_buffer-IsEmpty : (size : ℕ) → 0 < size → IsEmpty size (new_buffer size)
new_buffer-IsEmpty size h = (record { size_of = length-replicate size 0; room = h }, refl)

pub initial-Inv : (size : ℕ) → 0 < size → Inv size (initial size)
initial-Inv size h = record {
  current = (new_buffer-IsEmpty size h).0;
  next = new_buffer-IsEmpty size h;
  buffers = tt;
  spare1 = (new_buffer size, refl, new_buffer-IsEmpty size h);
  spare2 = (new_buffer size, refl, new_buffer-IsEmpty size h);
  delivered = λ e. refl;
}

contents-append : (xs ys : List FixedBuffer) → contents (xs ++ ys) ≡ contents xs ++ contents ys
contents-append [] ys = refl
contents-append (x ∷ xs) ys =
    ap (λ l. as_string x ++ l) (contents-append xs ys)
    ∙ sym (append_assoc (as_string x) (contents xs) (contents ys))

-- The full buffers with the current one.
pub contents_all :
    (bs : List FixedBuffer) (b : FixedBuffer) → contents (bs ++ b ∷ []) ≡ contents bs ++ as_string b
contents_all bs b =
    contents-append bs (b ∷ []) ∙ ap (λ l. contents bs ++ l) (append-nil (as_string b))

pub as_string_empty : (size : ℕ) (b : FixedBuffer) → IsEmpty size b → as_string b ≡ []
as_string_empty size b (v, e) = ap (λ n. take n b.data_) e

pub shift : (o c s l : List ℕ) → o ++ (c ++ (s ++ l)) ≡ (o ++ (c ++ s)) ++ l
shift o c s l = ap (λ x. o ++ x) (sym (append_assoc c s l)) ∙ sym (append_assoc o (c ++ s) l)

pub AllValid-append :
    (size : ℕ) (bs : List FixedBuffer) (b : FixedBuffer)
    → AllValid size bs
    → Valid size b
    → AllValid size (bs ++ b ∷ [])
AllValid-append size [] b a v = (v, tt)
AllValid-append size (c ∷ bs) b a v = (a.0, AllValid-append size bs b a.1 v)

-- The next buffer, or a new one.
pub or_else-IsEmpty :
    (size : ℕ) (o : Option FixedBuffer) (bs : List FixedBuffer)
    → 0 < size
    → IsNext size o bs
    → IsEmpty size (or_else (new_buffer size) o)
or_else-IsEmpty size none bs h n = new_buffer-IsEmpty size h
or_else-IsEmpty size (some b) bs h n = n

pub after_full :
    (size : ℕ) (bs : List FixedBuffer) (b : FixedBuffer) → IsNext size none (bs ++ b ∷ [])
after_full size [] b = tt
after_full size (c ∷ bs) b = tt
