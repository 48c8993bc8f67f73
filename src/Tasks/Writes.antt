-- ===== src/Tasks/Writes.antt =====
-- Files of a disk written in turn: `fs.outputFileSync` as tasks/subtasks.ts uses it.
use index.Base.{◌≡◌, refl, inl, inr, Bool-cases, List, [], ◌∷◌, ◌++◌, some, All}
use index.Base.Text.{Text, eqb, eqb_refl, eqb→eq}
use index.Tasks.Types.{Disk, write}

-- Every path written, in turn, with the text that belongs to it.
abbrev pub write_all : (Text → Text) → List Text → Disk → Disk
write_all text_of [] disk = disk
write_all text_of (path ∷ paths) disk = write_all text_of paths (write path (text_of path) disk)

abbrev pub Holds : (Text → Text) → Disk → Text → Type 0
Holds text_of disk path = disk.content path ≡ some (text_of path)

module _ (text_of : Text → Text) where
  pub write-Holds :
      (path q : Text) (disk : Disk)
      → Holds text_of disk q
      → Holds text_of (write path (text_of path) disk) q
  write-Holds path q disk h = elim (Bool-cases (eqb q path)) [
    | inl e ↦ rw (e, eqb→eq q path e) refl
    | inr e ↦ rw e h
  ]

  pub write_all-keeps :
      (paths : List Text) (disk : Disk) (q : Text)
      → Holds text_of disk q
      → Holds text_of (write_all text_of paths disk) q
  write_all-keeps [] disk q h = h
  write_all-keeps (path ∷ paths) disk q h =
      write_all-keeps paths (write path (text_of path) disk) q (write-Holds path q disk h)

  pub write_all-Holds :
      (paths : List Text) (disk : Disk) → All (Holds text_of (write_all text_of paths disk)) paths
  write_all-Holds [] disk = tt
  write_all-Holds (path ∷ paths) disk = (
    write_all-keeps paths (write path (text_of path) disk) path (rw (eqb_refl path) refl),
    write_all-Holds paths (write path (text_of path) disk),
  )

pub write_all-files :
    (text_of : Text → Text) (paths : List Text) (disk : Disk)
    → (write_all text_of paths disk).files ≡ disk.files
write_all-files text_of [] disk = refl
write_all-files text_of (path ∷ paths) disk =
    write_all-files text_of paths (write path (text_of path) disk)

pub write_all-append :
    (text_of : Text → Text) (paths others : List Text) (disk : Disk)
    → write_all text_of (paths ++ others) disk
      ≡ write_all text_of others (write_all text_of paths disk)
write_all-append text_of [] others disk = refl
write_all-append text_of (path ∷ paths) others disk =
    write_all-append text_of paths others (write path (text_of path) disk)
