-- ===== src/Disk/Commands.antt =====
-- The commands and the system calls of `RealDiskHotPlugger`: a parameter of the model; and the
-- functions of `strings` that it uses.
use Prim.Native.Char.{code}
use civo_csi.Base.{ℕ, String, ◌<>◌, Bool, true, ◌&&◌, ◌||◌, leb, nat_eq, Option, List, [], ◌∷◌}
use civo_csi.Base.Int.{ℤ}
use civo_csi.Action.{Error, ExternalError, Reply, external}

-- Why a command did not succeed: it ended with the status (`*exec.ExitError`), or it did not run.
pub data RunError : Type 0 where
  exited : ℤ → ExternalError → RunError
  not_run : ExternalError → RunError

abbrev pub run_error : RunError → Error
run_error (exited _ e) = external e
run_error (not_run e) = external e

-- The output of a command, and its error
pub record Run : Type 0 where
  pub output : String
  pub error : Option RunError

-- unix.Statfs_t
pub record Statfs : Type 0 where
  pub bavail : ℕ
  pub blocks : ℕ
  pub bfree : ℕ
  pub bsize : ℤ
  pub ffree : ℕ
  pub files : ℕ

-- `filepath.Glob` (whose error is dropped), `exec.LookPath`, `exec.Command` with its output,
-- `os.MkdirAll`, `os.OpenFile` with O_CREATE, `filepath.Dir` and `unix.Statfs`
pub record System (W : Type 0) : Type 0 where
  pub glob : String → W → List String × W
  pub look_path : String → W → Reply String × W
  pub run : String → List String → W → Run × W
  pub mkdir_all : String → W → Reply (Unit {0}) × W
  pub create_file : String → W → Reply (Unit {0}) × W
  pub dir : String → String
  pub statfs : String → W → Reply Statfs × W

-- `strings.Join`
abbrev pub join : String → List String → String
join sep [] = ""
join sep (s ∷ []) = s
join sep (s ∷ t ∷ rest) = s <> (sep <> join sep (t ∷ rest))

-- Unicode's white space
abbrev pub is_space : ℕ → Bool
is_space c =
    (leb 9 c && leb c 13)
    || (nat_eq c 32
        || (nat_eq c 0x85
            || (nat_eq c 0xa0
                || (nat_eq c 0x1680
                    || ((leb 0x2000 c && leb c 0x200a)
                        || (nat_eq c 0x2028
                            || (nat_eq c 0x2029
                                || (nat_eq c 0x202f || (nat_eq c 0x205f || nat_eq c 0x3000)))))))))

-- strings.TrimSpace(s) == ""
unfoldable pub is_blank : String → Bool
is_blank String.[] = true
is_blank (String.◌∷◌ c s) = is_space (code c) && is_blank s
