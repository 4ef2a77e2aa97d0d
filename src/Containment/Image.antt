-- ===== src/Containment/Image.antt =====
-- src/sddgov/production_containment.py: `RuntimeImage`. The table of open descriptors is the
-- state; what the kernel says of a descriptor is a parameter.
use Prim.Native.Nat.{bit_and}
use Prim.Native.Char.{code}
use agentic_sdd_governance.Base.{
  ℕ, String, ◌<>◌, Bool, false, not, ◌&&◌, ◌||◌, Option, none, some, List, [], ◌∷◌, any, eqb, keep,
  if◌then◌else◌, ◌==◌,
}
use agentic_sdd_governance.Python.Text.{is_sha256}
use agentic_sdd_governance.Containment.Violation.{Outcome, done, violation, os_error, Method}

-- What `fstat` says of an open descriptor.
pub record Info : Type 0 where
  pub regular : Bool
  pub nlink : ℕ
  pub uid : ℕ
  pub mode : ℕ
  pub device : ℕ
  pub inode : ℕ

-- `hashlib.sha256(content).hexdigest()`; `os.open` of the path, with the descriptor that it gives;
-- `os.fstat` and the bytes of the file from its start. `none` is an `OSError`.
pub record Kernel : Type 0 where
  pub sha256 : List ℕ → String
  pub opened : Option ℕ
  pub fstat : ℕ → Option Info
  pub content : ℕ → List ℕ

-- `descriptor` is `none` for -1, which `close` leaves.
pub record RuntimeImage : Type 0 where
  pub descriptor : Option ℕ
  pub expected_sha256 : String
  pub device : ℕ
  pub inode : ℕ
  pub owner_uid : ℕ

-- `b"\x7fELF"`
abbrev pub elf_magic : List ℕ
elf_magic = 0x7f ∷ b'E' ∷ b'L' ∷ b'F' ∷ []

-- `os.read(descriptor, 4) == b"\x7fELF"`
unfoldable pub is_elf : List ℕ → Bool
is_elf (a ∷ b ∷ c ∷ d ∷ rest) = eqb a 0x7f && eqb b b'E' && eqb c b'L' && eqb d b'F'
is_elf _ = false

-- `"sha256:" + digest.hexdigest()`
abbrev pub image_digest : Kernel → ℕ → String
image_digest k fd = "sha256:" <> k.sha256 (k.content fd)

-- `st_mode & 0o022`
abbrev pub is_writable : Info → Bool
is_writable info = not (eqb (bit_and info.mode 18) 0)

-- `text[7:]` of a text that starts with `sha256:`
unfoldable pub after_prefix : String → Option String
after_prefix
      (String.◌∷◌ a (
        String.◌∷◌ b
          (String.◌∷◌ c (String.◌∷◌ d (String.◌∷◌ e (String.◌∷◌ f (String.◌∷◌ g rest))))))) =
    if eqb (code a) b's'
      && eqb (code b) b'h'
      && eqb (code c) b'a'
      && eqb (code d) b'2'
      && eqb (code e) b'5'
      && eqb (code f) b'6'
      && eqb (code g) b':'
    then some rest
    else none
after_prefix _ = none

-- The test of the expected digest.
unfoldable pub is_hash : String → Bool
unfolding after_prefix
is_hash expected = elim (after_prefix expected) [ none ↦ false | some hex ↦ is_sha256 hex ]

abbrev pub Descriptors : Type 0
Descriptors = List ℕ

-- `os.close(descriptor)`
abbrev pub close_descriptor : ℕ → Descriptors → Descriptors
close_descriptor fd = keep (λ other. not (eqb other fd))

-- The body of the `try` after the open, by what `os.fstat` says.
unfoldable pub check_opened : Kernel → String → List ℕ → ℕ → Option Info → Outcome RuntimeImage
check_opened k expected allowed_uids fd none = os_error
check_opened k expected allowed_uids fd (some info) =
    if not info.regular
      || not (eqb info.nlink 1)
      || not (any (λ uid. eqb uid info.uid) allowed_uids)
      || is_writable info
    then violation "runtime_image_metadata_invalid"
    else if not (is_elf (k.content fd))
    then violation "runtime_image_not_elf"
    else if not (image_digest k fd == expected)
    then violation "runtime_image_hash_mismatch"
    else done (record {
      descriptor = some fd;
      expected_sha256 = expected;
      device = info.device;
      inode = info.inode;
      owner_uid = info.uid;
    })

-- `except Exception: os.close(descriptor); raise`
unfoldable pub close_on_raise : ℕ → Outcome RuntimeImage → Method Descriptors RuntimeImage
close_on_raise fd (done image) fds = (done image, fds)
close_on_raise fd (violation reason) fds = (violation reason, close_descriptor fd fds)
close_on_raise fd os_error fds = (os_error, close_descriptor fd fds)

-- `RuntimeImage.open_verified`
unfoldable pub open_verified : Kernel → String → List ℕ → Method Descriptors RuntimeImage
unfolding check_opened close_on_raise
open_verified k expected allowed_uids fds =
    if not (is_hash expected)
    then (violation "runtime_image_hash_invalid", fds)
    else elim k.opened [
      | none ↦ (violation "runtime_image_unavailable", fds)
      | some fd ↦
          close_on_raise fd (check_opened k expected allowed_uids fd (k.fstat fd)) (fd ∷ fds)
    ]

-- The tests on the held descriptor.
unfoldable pub check_held : Kernel → RuntimeImage → ℕ → Option Info → Outcome ℕ
check_held k image fd none = violation "runtime_image_fd_unavailable"
check_held k image fd (some info) =
    if not info.regular
      || not (eqb info.device image.device && eqb info.inode image.inode)
      || not (eqb info.nlink 1)
      || not (eqb info.uid image.owner_uid)
      || is_writable info
    then violation "runtime_image_fd_identity_changed"
    else if not (is_elf (k.content fd))
    then violation "runtime_image_fd_not_elf"
    else if not (image_digest k fd == image.expected_sha256)
    then violation "runtime_image_fd_hash_changed"
    else done fd

-- `fileno`, which calls `verify_held_identity`
unfoldable pub fileno : Kernel → RuntimeImage → Outcome ℕ
unfolding check_held
fileno k image = elim image.descriptor [
  | none ↦ violation "runtime_image_fd_unavailable"
  | some fd ↦ check_held k image fd (k.fstat fd)
]

-- `close`
unfoldable pub close : RuntimeImage → Descriptors → RuntimeImage × Descriptors
close image fds = elim image.descriptor [
  | none ↦ (image, fds)
  | some fd ↦ (record image { descriptor = none }, close_descriptor fd fds)
]
