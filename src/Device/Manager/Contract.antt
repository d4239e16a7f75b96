-- ===== src/Device/Manager/Contract.antt =====
-- What the manager promises: for every name a queue of the devices of that name. An addition joins
-- the end of its queue, a removal takes the head, and a lookup gives the head. How devices of
-- different names are ordered is forgotten, and so are the array and its size.
use mapper_framework_c.Prelude.{
  ℕ, false, any, ◌==◌, ◌≡◌, true, if◌then◌else◌, Option, none, some, List, [], ◌∷◌, ◌++◌,
}
use mapper_framework_c.Prelude.Int.{ℤ}
use mapper_framework_c.Prelude.CString.{Str}
use mapper_framework_c.Common.Const.{success, failure}
use mapper_framework_c.Common.Outcome.{Outcome, done}
use mapper_framework_c.Device.Types.{Device}
use mapper_framework_c.Device.Manager.{is_named}

abbrev pub Registry : Type 0
Registry = Str → List Device

abbrev pub head : List Device → Option Device
head [] = none
head (d ∷ ds) = some d

-- The devices of a name, in their order.
abbrev pub queue : List Device → Registry
queue [] id = []
queue (d ∷ ds) id = if is_named id d then d ∷ queue ds id else queue ds id

-- The last segment of an identifier, in words: what stands behind its last dot, or, if it has no
-- dot, behind its last slash, unless nothing stands there.
pub data Segment (id : Str) : Option Str → Type 0 where
  dotted :
      (front : Str) (c : ℕ) (t : Str)
      → id ≡ front ++ b'.' ∷ c ∷ t
      → any (λ x. x == b'.') (c ∷ t) ≡ false
      → Segment id (some (c ∷ t))
  dot_last : (front : Str) → id ≡ front ++ b'.' ∷ [] → Segment id none
  slashed :
      (front : Str) (c : ℕ) (t : Str)
      → any (λ x. x == b'.') id ≡ false
      → id ≡ front ++ b'/' ∷ c ∷ t
      → any (λ x. x == b'/') (c ∷ t) ≡ false
      → Segment id (some (c ∷ t))
  slash_last :
      (front : Str) → any (λ x. x == b'.') id ≡ false → id ≡ front ++ b'/' ∷ [] → Segment id none
  plain : any (λ x. x == b'.') id ≡ false → any (λ x. x == b'/') id ≡ false → Segment id none

-- What the contract lets a lookup give: the first device of the full name, or, if there is none, the
-- first that has the last segment as its name.
pub data Finds (r : Registry) (id : Str) : Option Device → Type 0 where
  by_name : (d : Device) (ds : List Device) → r id ≡ d ∷ ds → Finds r id (some d)
  by_segment :
      (t : Str) (d : Device) (ds : List Device)
      → r id ≡ []
      → Segment id (some t)
      → r t ≡ d ∷ ds
      → Finds r id (some d)
  unknown : (t : Str) → r id ≡ [] → Segment id (some t) → r t ≡ [] → Finds r id none
  no_segment : r id ≡ [] → Segment id none → Finds r id none

-- What the contract asks of an addition: the device joins the queue of its name, the other queues
-- stay.
abbrev pub Adds : Registry → Device → Registry → Type 0
Adds r d r' = (id : Str) → r' id ≡ r id ++ (if is_named id d then d ∷ [] else [])

-- And of a removal: a device of that name goes, and the queue of its name loses its head; the other
-- queues stay.
pub data Removes (r : Registry) (id : Str) (r' : Registry) : ℤ → Type 0 where
  leaves :
      (d : Device)
      → is_named id d ≡ true
      → ((other : Str) → r other ≡ (if is_named other d then d ∷ r' other else r' other))
      → Removes r id r' success
  missing : r id ≡ [] → ((other : Str) → r' other ≡ r other) → Removes r id r' failure

-- What is asked of a manager, where `realloc` has memory, and what is answered.
pub data Request : Type 0 where
  add : Device → Request
  remove : Str → Request
  get : Str → Request

pub data Reply : Type 0 where
  code : ℤ → Reply
  device : Option Device → Reply

-- The replies that the contract allows for the requests.
pub data Allowed : Registry → List Request → List Reply → Type 0 where
  over : {r : Registry} → Allowed r [] []
  adds :
      {r r' : Registry} {d : Device} {qs : List Request} {rs : List Reply}
      → Adds r d r'
      → Allowed r' qs rs
      → Allowed r (add d ∷ qs) (code success ∷ rs)
  removes :
      {r r' : Registry} {id : Str} {c : ℤ} {qs : List Request} {rs : List Reply}
      → Removes r id r' c
      → Allowed r' qs rs
      → Allowed r (remove id ∷ qs) (code c ∷ rs)
  gets :
      {r : Registry} {id : Str} {o : Option Device} {qs : List Request} {rs : List Reply}
      → Finds r id o
      → Allowed r qs rs
      → Allowed r (get id ∷ qs) (device o ∷ rs)

-- The requests are all answered, and as the contract allows.
pub data Kept (r : Registry) (qs : List Request) : Outcome (List Reply) → Type 0 where
  kept : {replies : List Reply} → Allowed r qs replies → Kept r qs (done replies)
