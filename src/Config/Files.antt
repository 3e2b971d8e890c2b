-- ===== src/Config/Files.antt =====
-- The files of cmd/guarddns/config.go: `copyFile`, `writeFileAtomic` and `writeRendered` on a file system
-- that maps paths to contents. `Os` says which calls of the operating system succeed, and what a write
-- that fails leaves behind.
use Prim.Native.String.{◌++◌ as ◌<>◌}
use guard_dns.Prelude.{
  Bool, true, false, not, Option, none, some, String, Dict, lookup, insert, erase, if◌then◌else◌,
}
use guard_dns.Prelude.Text.{Text, codes}
use guard_dns.Prelude.Search.{contains_text}

abbrev pub Fs : Type 0
Fs = Dict Text

pub record Os : Type 0 where
  pub mkdirs : String → Bool
  pub stats : String → Bool
  pub opens : String → Bool
  pub reads : String → Bool
  pub creates : String → Bool
  pub writes : String → Bool
  pub partial : String → Text → Text
  pub renames : String → Bool
  pub removes : String → Bool
  pub chowns : String → Bool
  pub accepts : String → Text → Bool  -- `unbound-checkconf`

pub data StartError : Type 0 where
  os_error no_root_anchor : StartError
  unresolved invalid_unbound : String → StartError

pub data Attempt (A : Type 0) : Type 0 where
  done : A → Attempt A
  broke : StartError → Attempt A

-- A call that reads and changes the files; the first error ends a chain of them.
abbrev pub Io : Type 0 → Type 0
Io A = Fs → Fs × Attempt A

abbrev pub bind_at : {A B : Type 0} → (A → Io B) → Fs × Attempt A → Fs × Attempt B
bind_at next (fs, broke e) = (fs, broke e)
bind_at next (fs, done a) = next a fs

infixl 5 ◌>>=◌ ◌>>◌
abbrev pub ◌>>=◌ : {A B : Type 0} → Io A → (A → Io B) → Io B
◌>>=◌ call next fs = bind_at next (call fs)

abbrev pub ◌>>◌ : {A B : Type 0} → Io A → Io B → Io B
◌>>◌ call next = call >>= (λ a. next)

abbrev pub give_up : {A : Type 0} → StartError → Io A
give_up e fs = (fs, broke e)

abbrev pub require : Bool → StartError → Io (Unit {0})
require true e fs = (fs, done tt)
require false e fs = (fs, broke e)

abbrev pub read_at : Bool → Option Text → Fs → Fs × Attempt Text
read_at true (some t) fs = (fs, done t)
read_at _ _ fs = (fs, broke os_error)

-- `os.ReadFile`.
unfoldable pub read_file : Os → String → Io Text
read_file os path fs = read_at (os.reads path) (lookup path fs) fs

abbrev pub tmp_of : String → String
tmp_of path = path <> ".tmp"

-- `os.Rename`.
unfoldable pub rename : Os → String → Text → String → Io (Unit {0})
rename os source content target fs =
    if os.renames source
    then (insert target content (erase source fs), done tt)
    else (fs, broke os_error)

-- `os.Remove`, whose error is passed over.
unfoldable pub remove : Os → String → Fs → Fs
remove os path fs = if os.removes path then erase path fs else fs

-- The file `tmp` is written beside the target, and renamed onto it once it is whole.
unfoldable pub write_file_atomic : Os → String → Text → Io (Unit {0})
unfolding rename
write_file_atomic os path content fs =
    let tmp = tmp_of path in
    if not (os.creates tmp)
    then (fs, broke os_error)
    else if not (os.writes tmp)
    then (insert tmp (os.partial tmp content) fs, broke os_error)
    else rename os tmp content path (insert tmp content fs)

abbrev pub copy_content : Os → String → Option Text → Io (Unit {0})
copy_content os target none fs = (fs, broke os_error)
copy_content os target (some content) fs =
    let tmp = tmp_of target in
    if not (os.creates tmp)
    then (fs, broke os_error)
    else if not (os.writes tmp)
    then (remove os tmp (insert tmp (os.partial tmp content) fs), broke os_error)
    else rename os tmp content target (insert tmp content fs)

unfoldable pub copy_file : Os → String → String → Io (Unit {0})
unfolding rename remove
copy_file os source target fs =
    copy_content os target (if os.opens source then lookup source fs else none) fs

-- A text that still has a placeholder in it is not written.
unfoldable pub write_rendered : Os → String → Text → Io (Unit {0})
unfolding write_file_atomic contains_text
write_rendered os path content =
    if contains_text (codes "__") content
    then give_up (unresolved path)
    else write_file_atomic os path content
