-- ===== src/Cluster/Server.antt =====
-- src/cluster/server.rs: the requests that a drive node answers, over the calls of its drive. The
-- names of an answer's entries and their times are left to the drive.
use kerplace.Base.{
  Text, ℕ, ◌+◌, ◌-◌, ◌*◌, ◌%◌, ◌^◌, ◌&&◌, Bool, false, not, if◌then◌else◌, List, [], any, Option,
  none, some, codes, split, split_once, starts_with, strip_prefix, text_eq, ltb, parse_unsigned,
  Outcome, done, failed,
}
use kerplace.Cluster.LockTable.{LockTable, acquire, release, fence_ok}

-- The errors of a drive that the answers tell apart.
pub data IoError : Type 0 where
  not_found other : IoError

-- `Drive`, as far as the requests use it. What a listing answers is the bytes of its document.
pub record DriveCalls (D : Type 0) : Type 0 where
  pub read_at : Text → ℕ → ℕ → D → Outcome IoError (List ℕ)
  pub open_file : Text → D → Outcome IoError (List ℕ)
  pub create : Text → D → D × Option IoError
  pub copy_all : Text → List ℕ → D → D × Option IoError
  pub remove_file : Text → D → D × Option IoError
  pub remove_dir : Text → D → D × Option IoError
  pub remove_dir_all : Text → D → D × Option IoError
  pub create_dir_all : Text → D → D × Option IoError
  pub rename : Text → Text → D → D × Option IoError
  pub stat : Text → D → Outcome IoError (List ℕ)
  pub read_dir : Text → D → Outcome IoError (List ℕ)
  pub walk : Text → D → Outcome IoError (List ℕ)

-- `DriveState`
pub record DriveState (D : Type 0) : Type 0 where
  pub drive : D
  pub secret : Text
  pub locks : LockTable

-- The headers that are read, where they are there and are text.
pub record Headers : Type 0 where
  pub authorization : Option Text
  pub range : Option Text
  pub fence_resource : Option Text
  pub fence_token : Option Text

pub record Answer : Type 0 where
  pub status : ℕ
  pub body : List ℕ

abbrev pub bare : ℕ → Answer
bare status = record { status = status; body = [] }

abbrev u64_max : ℕ
u64_max = 18446744073709551615

-- The components of a path that `safe_rel` refuses: the root and `..`.
unfoldable pub safe_rel : Text → Bool
unfolding any
safe_rel p =
    not (starts_with p (codes "/")) && not (any (λ s. text_eq s (codes "..")) (split b'/' p))

abbrev in_order : Option ℕ → Option ℕ → Option (ℕ × ℕ)
in_order (some start) (some end) =
    if ltb end start then none else some (start, (end - start + 1) % 2 ^ 64)
in_order _ _ = none

abbrev bounds_of : Option (Text × Text) → Option (ℕ × ℕ)
bounds_of none = none
bounds_of (some (s, e)) = in_order (parse_unsigned 10 u64_max s) (parse_unsigned 10 u64_max e)

abbrev spec_of : Option Text → Option (ℕ × ℕ)
spec_of none = none
spec_of (some spec) = bounds_of (split_once b'-' spec)

-- `parse_range`: the offset and the number of bytes. The sum wraps as in a release build.
unfoldable pub drive_range : Text → Option (ℕ × ℕ)
unfolding strip_prefix split_once
drive_range v = spec_of (strip_prefix v (codes "bytes="))

-- What a request asks of the node.
pub data Request : Type 0 where
  health : Request
  get_file : Text → Request
  put_file : Text → List ℕ → Request
  del_file : Text → Text → Request
  mkdir : Text → Request
  rename_file : Text → Text → Request
  stat_file readdir walk_files : Text → Request
  lock_acquire : Text → Text → ℕ → Request
  lock_release : Text → Text → Request

abbrev pub header_token : Option Text → Option ℕ
header_token none = none
header_token (some s) = parse_unsigned 10 u64_max s

abbrev fenced_by : LockTable → Option Text → Option ℕ → Bool
fenced_by locks (some res) (some tok) = not (fence_ok res tok locks)
fenced_by locks _ _ = false

-- `fenced_out`, of a node with such locks: whether the answer is 412
unfoldable pub fenced_out : LockTable → Headers → Bool
unfolding fence_ok
fenced_out locks h = fenced_by locks h.fence_resource (header_token h.fence_token)

unfoldable pub io_status : IoError → ℕ
io_status not_found = 404
io_status other = 500

abbrev written : Option IoError → Answer
written none = bare 200
written (some e) = bare (io_status e)

abbrev streamed : Option IoError → Answer
streamed none = bare 200
streamed (some e) = bare 500

abbrev shown : Outcome IoError (List ℕ) → Answer
shown (done b) = record { status = 200; body = b }
shown (failed e) = bare (io_status e)

abbrev sliced : Outcome IoError (List ℕ) → Answer
sliced (done b) = record { status = 206; body = b }
sliced (failed not_found) = bare 404
sliced (failed other) = bare 416

abbrev range_of : Option Text → Option (ℕ × ℕ)
range_of none = none
range_of (some v) = drive_range v

abbrev pub locked : LockTable × Option ℕ → (ℕ → List ℕ) → LockTable × Answer
locked (locks, some token) digits = (locks, record { status = 200; body = digits token })
locked (locks, none) digits = (locks, bare 409)

module _ {D : Type 0} (calls : DriveCalls D) where
  abbrev changed : DriveState D → D × Option IoError → DriveState D × Answer
  changed st (d, result) = (record st { drive = d }, written result)

  -- A write to the drive: the fence first, then the path.
  abbrev guarded :
      DriveState D → Headers → Bool → (DriveState D → DriveState D × Answer) → DriveState D × Answer
  guarded st h safe act =
      if fenced_out st.locks h then (st, bare 412) else if safe then act st else (st, bare 400)

  abbrev copied : DriveState D → Text → List ℕ → D × Option IoError → DriveState D × Answer
  copied st p body (d, some e) = (record st { drive = d }, bare (io_status e))
  copied st p body (d, none) =
      let (next, result) = calls.copy_all p body d in (record st { drive = next }, streamed result)

  abbrev removed : DriveState D → Text → Text → DriveState D × Answer
  removed st p kind =
      if text_eq kind (codes "file")
      then changed st (calls.remove_file p st.drive)
      else if text_eq kind (codes "dir")
      then changed st (calls.remove_dir p st.drive)
      else if text_eq kind (codes "tree")
      then changed st (calls.remove_dir_all p st.drive)
      else (st, bare 400)

  abbrev listed : DriveState D → Text → (Text → D → Outcome IoError (List ℕ)) → Answer
  listed st p call = if safe_rel p then shown (call p st.drive) else bare 400

  abbrev ranged : DriveState D → Text → Option (ℕ × ℕ) → Answer
  ranged st p (some (offset, len)) = sliced (calls.read_at p offset len st.drive)
  ranged st p none = shown (calls.open_file p st.drive)

  -- The handlers, at a time of the node's clock. The last argument writes a token in digits.
  unfoldable pub serve : DriveState D → Headers → ℕ → (ℕ → List ℕ) → Request → DriveState D × Answer
  unfolding fenced_out io_status safe_rel drive_range acquire release text_eq
  serve st h now digits health = (st, record { status = 200; body = codes "ok" })
  serve st h now digits (get_file p) =
      (st, if safe_rel p then ranged st p (range_of h.range) else bare 400)
  serve st h now digits (put_file p body) =
      guarded st h (safe_rel p) λ s. copied s p body (calls.create p s.drive)
  serve st h now digits (del_file p kind) = guarded st h (safe_rel p) λ s. removed s p kind
  serve st h now digits (mkdir p) =
      guarded st h (safe_rel p) λ s. changed s (calls.create_dir_all p s.drive)
  serve st h now digits (rename_file from to) =
      guarded st h (safe_rel from && safe_rel to) λ s. changed s (calls.rename from to s.drive)
  serve st h now digits (stat_file p) = (st, listed st p calls.stat)
  serve st h now digits (readdir p) = (st, listed st p calls.read_dir)
  serve st h now digits (walk_files p) = (st, listed st p calls.walk)
  serve st h now digits (lock_acquire resource owner ttl_ms) =
      let (next, answer) = locked (acquire resource owner now (ttl_ms * 1000000) st.locks) digits in
      (record st { locks = next }, answer)
  serve st h now digits (lock_release resource owner) =
      (record st { locks = (release resource owner st.locks).0 }, bare 200)

  abbrev bearer : Option Text → Option Text
  bearer none = none
  bearer (some v) = strip_prefix v (codes "Bearer ")

  abbrev is_secret : Text → Option Text → Bool
  is_secret secret none = false
  is_secret secret (some t) = text_eq t secret

  -- `drive_router` with its middleware `auth`
  unfoldable pub drive_request :
      DriveState D → Headers → ℕ → (ℕ → List ℕ) → Request → DriveState D × Answer
  unfolding serve strip_prefix text_eq
  drive_request st h now digits q =
      if is_secret st.secret (bearer h.authorization)
      then serve st h now digits q
      else (st, bare 401)
