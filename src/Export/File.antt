-- ===== src/Export/File.antt =====
-- internal/export/file.go: the JSONL file exporter and its rotation. The file system is the live file
-- and its numbered backups; each operating-system call that can fail does so by a flag of the faults
-- of one `Export`. The buffered writer is empty between two exports, and keeps its first error until
-- it is reset, as bufio.Writer does.
pub mod Accounting
pub mod Rotation
pub mod Sticky
pub mod Reopening
use streamsight_agent.Base.{
  ℕ, zero, suc, ◌+◌, ◌-◌, ◌*◌, ◌≡◌, Bool, true, false, not, ◌&&◌, ◌||◌, Option, none, some, List,
  [], ◌∷◌, ◌++◌, ltb, leb, ◌==◌, if◌then◌else◌, length, ℤ, pos, negsuc,
}
use streamsight_agent.Export.Counters.{Counters, new_counters, inc, record_err, drop_batch}

pub data FileError : Type 0 where
  cancelled encode_failed file_closed create_dir_failed open_failed flush_failed close_failed :
      FileError
  remove_failed rename_failed write_failed sync_failed path_required : FileError

-- The files that the exporter names; a line is its bytes.
pub record Files : Type 0 where
  pub live : Option (List ℕ)
  pub backup : ℕ → Option (List ℕ)

-- What the calls of one `open` return. The size is that of the file, or 0 if it cannot be read.
pub record OpenFaults : Type 0 where
  pub mkdir : Bool
  pub open_file : Bool
  pub stat : Bool

-- What the calls of one `Export` or `Close` return. A write or flush that fails may leave a part of
-- the line behind.
pub record Faults : Type 0 where
  pub reopening : OpenFaults
  pub rotating : OpenFaults
  pub close_file : Bool
  pub remove : Bool
  pub stat_backup : ℕ → Bool
  pub rename : ℕ → Bool
  pub rename_live : Bool
  pub write : Bool
  pub written : ℕ
  pub partial_write : List ℕ
  pub flush : Bool
  pub sync : Bool

-- The exporter: `file` is whether its handle is not nil, `handle_open` whether that of the writer is
-- open, and `write_err` whether the writer holds an error.
pub record FileExporter : Type 0 where
  pub counters : Counters FileError
  pub max_bytes : ℕ
  pub max_backups : ℕ
  pub sync : Bool
  pub file : Bool
  pub handle_open : Bool
  pub write_err : Bool
  pub size : ℕ
  pub needs_reopen : Bool
  pub closed : Bool
  pub files : Files

abbrev pub bytes_of : Option (List ℕ) → List ℕ
bytes_of none = []
bytes_of (some c) = c

abbrev pub with_live : Files → Option (List ℕ) → Files
with_live f c = record f { live = c }

-- `open`: a missing file is created.
unfoldable pub open_live : FileExporter → OpenFaults → FileExporter × Option FileError
open_live e o =
    if o.mkdir
    then (e, some create_dir_failed)
    else (if o.open_file then (e, some open_failed) else (
      record e {
        file = true;
        handle_open = true;
        write_err = false;
        size = if o.stat then 0 else length (bytes_of e.files.live);
        files = with_live e.files (some (bytes_of e.files.live));
      },
      none,
    ))

-- `reopen`: the flag is set first, so that a failure is retried as a bare reopen.
unfoldable pub reopen : FileExporter → OpenFaults → FileExporter × Option FileError
unfolding open_live
reopen e o =
    let (e', err) = open_live (record e { needs_reopen = true }) o in
    elim err [ some x ↦ (e', some x) | none ↦ (record e' { needs_reopen = false }, none) ]

abbrev pub set_backup : (ℕ → Option (List ℕ)) → ℕ → Option (List ℕ) → ℕ → Option (List ℕ)
set_backup b i c j = if j == i then c else b j

abbrev is_some {ℓ} : {A : Type ℓ} → Option A → Bool
is_some none = false
is_some (some _) = true

-- One rename of the shift: the backup `i` becomes `i + 1`; a backup that is not there is skipped.
unfoldable pub shift_one : Files → Faults → ℕ → Files × Option FileError
shift_one f w i =
    if not (is_some (f.backup i)) || w.stat_backup i
    then (f, none)
    else (if w.rename i then (f, some rename_failed) else (
      record f { backup = set_backup (set_backup f.backup (i + 1) (f.backup i)) i none },
      none,
    ))

-- The loop of the shift, from the backup `i` down to the first.
unfoldable pub shift_backups : Files → Faults → ℕ → Files × Option FileError
unfolding shift_one
shift_backups f w zero = (f, none)
shift_backups f w (suc i) =
    let (f', err) = shift_one f w (suc i) in
    let rest = shift_backups f' w i in elim err [ some x ↦ (f', some x) | none ↦ rest ]

-- The live file becomes the first backup; a missing one is no error.
unfoldable pub move_live : Files → Faults → Files × Option FileError
move_live f w = elim f.live [
  | none ↦ (f, none)
  | some c ↦
      if w.rename_live
      then (f, some rename_failed)
      else (record f { live = none; backup = set_backup f.backup 1 (some c) }, none)
]

-- `os.Remove` of the oldest backup, which may be missing.
unfoldable pub remove_backup : Files → Faults → ℕ → Files × Option FileError
remove_backup f w i =
    if not (is_some (f.backup i))
    then (f, none)
    else (if w.remove
        then (f, some remove_failed)
        else (record f { backup = set_backup f.backup i none }, none))

-- `os.Remove` of the live file, which may be missing.
unfoldable pub remove_live : Files → Faults → Files × Option FileError
remove_live f w = elim f.live [
  | none ↦ (f, none)
  | some _ ↦ if w.remove then (f, some remove_failed) else (record f { live = none }, none)
]

infixl 5 ◌>>=◌
abbrev pub ◌>>=◌ :
    Files × Option FileError → (Files → Files × Option FileError) → Files × Option FileError
◌>>=◌ (f, none) k = k f
◌>>=◌ (f, some x) k = (f, some x)

-- The part of `rotate` that moves files.
unfoldable pub rotate_files : Files → Faults → ℕ → Files × Option FileError
unfolding remove_live remove_backup shift_backups move_live
rotate_files f w zero = remove_live f w
rotate_files f w (suc n) =
    remove_backup f w (suc n) >>= λ f'. (shift_backups f' w n >>= λ f''. move_live f'' w)

-- The flush of an empty buffer only reports an error that the writer holds already.
unfoldable pub flush_and_close : FileExporter → Faults → FileExporter × Option FileError
flush_and_close e w =
    if e.write_err
    then (e, some flush_failed)
    else (if not e.file
        then (e, none)
        else (if w.close_file || not e.handle_open
            then (record e { handle_open = false }, some close_failed)
            else (record e { file = false; handle_open = false }, none)))

-- `rotate`.
unfoldable pub rotate : FileExporter → Faults → FileExporter × Option FileError
unfolding flush_and_close rotate_files reopen
rotate e w =
    let (e', err) = flush_and_close e w in
    elim err [
      | some x ↦ (e', some x)
      | none ↦
          let (f, moved) = rotate_files e'.files w e'.max_backups in
          elim moved [
            | some x ↦ (record e' { files = f }, some x)
            | none ↦ reopen (record e' { files = f }) w.rotating
          ]
    ]

abbrev pub fails : FileExporter → FileError → FileExporter × Option FileError
fails e x = (record e { counters = drop_batch e.counters x }, some x)

abbrev append_live : FileExporter → List ℕ → FileExporter
append_live e bytes = record e { files = with_live e.files (some (bytes_of e.files.live ++ bytes)) }

abbrev pub exported_one : FileExporter → FileExporter × Option FileError
exported_one e =
    (record e { counters = record e.counters { exported = inc e.counters.exported } }, none)

-- What a failed write or flush leaves: the writer's error, and on an open handle a part of the line.
unfoldable pub spoil : FileExporter → Faults → FileExporter
spoil e w =
    let e' : FileExporter = record e { write_err = true } in
    if e.handle_open then append_live e' w.partial_write else e'

-- The write, the flush and the optional fsync of one line.
unfoldable pub write_line : FileExporter → Faults → List ℕ → FileExporter × Option FileError
unfolding drop_batch spoil inc
write_line e w line =
    if e.write_err
    then fails e write_failed
    else (if w.write
        then fails (spoil (record e { size = e.size + w.written }) w) write_failed
        else (let e' : FileExporter = record e { size = e.size + length line } in
            if w.flush || not e.handle_open
            then fails (spoil e' w) flush_failed
            else (if e.sync && (e.file && w.sync)
                then fails (append_live e' line) sync_failed
                else exported_one (append_live e' line))))

-- Whether the line would not fit a file that is not empty.
abbrev pub must_rotate : FileExporter → List ℕ → Bool
must_rotate e line = ltb 0 e.max_bytes && (ltb 0 e.size && ltb e.max_bytes (e.size + length line))

-- The rotation before a line, and the line.
unfoldable pub rotate_and_write : FileExporter → Faults → List ℕ → FileExporter × Option FileError
unfolding rotate write_line drop_batch
rotate_and_write e w line =
    if must_rotate e line
    then (let (e', err) = rotate e w in
        elim err [ some x ↦ fails e' x | none ↦ write_line e' w line ])
    else write_line e w line

-- A rotation that could not reopen is finished first, without its shift.
unfoldable pub finish_reopen : FileExporter → Faults → FileExporter × Option FileError
unfolding open_live
finish_reopen e w =
    if e.needs_reopen
    then (let (e', err) = open_live e w.reopening in
        elim err [ some x ↦ (e', some x) | none ↦ (record e' { needs_reopen = false }, none) ])
    else (e, none)

unfoldable pub write_batch : FileExporter → Faults → List ℕ → FileExporter × Option FileError
unfolding finish_reopen rotate_and_write drop_batch
write_batch e w line =
    let (e', err) = finish_reopen e w in
    elim err [ some x ↦ fails e' x | none ↦ rotate_and_write e' w line ]

-- `Export`: whether the context is done, and the encoded line, `none` if the encoding fails.
unfoldable pub export_batch :
    FileExporter → Bool → Option (List ℕ) → Faults → FileExporter × Option FileError
unfolding write_batch drop_batch
export_batch e ctx_done batch w = if ctx_done then (e, some cancelled) else elim batch [
  | none ↦ fails e encode_failed
  | some line ↦ if e.closed then fails e file_closed else write_batch e w line
]

-- `Close`; safe to call twice.
unfoldable pub close : FileExporter → Faults → FileExporter × Option FileError
unfolding record_err
close e w =
    if e.closed
    then (e, none)
    else (let first_err : Option FileError =
          if e.write_err
          then some flush_failed
          else (if e.file && (w.close_file || not e.handle_open)
              then some close_failed
              else none) in
        (
          record e {
            closed = true;
            file = false;
            handle_open = false;
            counters = record_err e.counters first_err;
          },
          first_err,
        ))

abbrev pub default_file_max_mb : ℕ
default_file_max_mb = 100

abbrev pub default_file_max_backups : ℕ
default_file_max_backups = 3

-- A zero size is the default, and a negative one disables rotation.
abbrev max_bytes_of : ℤ → ℕ
max_bytes_of (pos zero) = default_file_max_mb * 1024 * 1024
max_bytes_of (pos (suc n)) = suc n * 1024 * 1024
max_bytes_of (negsuc n) = 0

abbrev max_backups_of : ℤ → ℕ
max_backups_of (pos n) = n
max_backups_of (negsuc n) = default_file_max_backups

-- `NewFileExporter` on a path that is not empty, over the files that are there.
unfoldable pub new_file_exporter :
    ℤ → ℤ → Bool → Files → OpenFaults → FileExporter × Option FileError
unfolding open_live new_counters
new_file_exporter max_mb max_backups sync files o =
    open_live
      (record {
        counters = new_counters FileError;
        max_bytes = max_bytes_of max_mb;
        max_backups = max_backups_of max_backups;
        sync = sync;
        file = false;
        handle_open = false;
        write_err = false;
        size = 0;
        needs_reopen = false;
        closed = false;
        files = files;
      })
      o
