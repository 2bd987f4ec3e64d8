-- ===== src/Report/Host.antt =====
-- What the report reads of the runtime and the operating system, and the lines that it prints of it.
use mathlib.Core.List.{reverse}
use latlearn.Common.{
  ℕ, ℤ, Bytes, Bool, true, false, ◌&&◌, ◌||◌, Option, none, some, List, [], ◌∷◌, ◌++◌, codes, ◌==◌,
  eqb, leb, if◌then◌else◌,
}
use latlearn.Report.Text.{sprint_d, pad_right}
use latlearn.Report.Number.{number_grouped}

-- Parameters, for code outside the program: package runtime, `debug.SetMemoryLimit( -1)`, the
-- environment, the output of `/usr/sbin/sysctl key` (`none` if it fails), `os.Create` (whether it
-- succeeds), and `fmt.Sprintf( "%8f", float64( a) / float64( b))`.
pub record Host : Type 0 where
  pub version : Bytes
  pub goarch : Bytes
  pub goos : Bytes
  pub num_cpu : ℤ
  pub gomaxprocs : ℤ
  pub num_goroutine : ℤ
  pub memory_limit : ℤ
  pub lookup_env : Bytes → Option Bytes
  pub sysctl : Bytes → Option Bytes
  pub creates : Bytes → Bool
  pub frac : ℤ → ℤ → Bytes

unfoldable pub is_darwin : Host → Bool
is_darwin h = h.goos == codes "darwin"

-- `strings.HasPrefix`, `strings.TrimPrefix` and, for ASCII text, `strings.TrimSpace`.
unfoldable pub has_prefix : Bytes → Bytes → Bool
has_prefix s [] = true
has_prefix [] (p ∷ ps) = false
has_prefix (c ∷ s) (p ∷ ps) = eqb c p && has_prefix s ps

unfoldable pub drop_bytes : Bytes → Bytes → Bytes
drop_bytes s [] = s
drop_bytes [] (p ∷ ps) = []
drop_bytes (c ∷ s) (p ∷ ps) = drop_bytes s ps

unfoldable pub trim_prefix : Bytes → Bytes → Bytes
unfolding has_prefix drop_bytes
trim_prefix s p = if has_prefix s p then drop_bytes s p else s

abbrev is_space : ℕ → Bool
is_space c = (leb 9 c && leb c 13) || eqb c b' '

unfoldable pub trim_left : Bytes → Bytes
trim_left [] = []
trim_left (c ∷ s) = let rest = trim_left s in if is_space c then rest else c ∷ s

unfoldable pub trim_space : Bytes → Bytes
unfolding trim_left
trim_space s = reverse (trim_left (reverse (trim_left s)))

unfoldable pub mac_sysctl : Host → Bytes → Bytes
mac_sysctl h key = elim (h.sysctl key) [
  | none ↦ []
  | some out ↦ trim_space (trim_prefix out (key ++ codes ": "))
]

unfoldable pub mac_sysctl_report_line : Host → Bytes → Bytes
mac_sysctl_report_line h key = pad_right 27 key ++ (codes ": " ++ (mac_sysctl h key ++ codes "\n"))

unfoldable pub concat_lines : (Bytes → Bytes) → List Bytes → Bytes
concat_lines f [] = []
concat_lines f (key ∷ keys) = f key ++ concat_lines f keys

abbrev pub mac_keys : List Bytes
mac_keys =
    codes "kern.ostype"
    ∷ codes "kern.osproductversion"
    ∷ codes "kern.osrelease"
    ∷ codes "kern.osrevision"
    ∷ codes "kern.version"
    ∷ codes "user.posix2_version"
    ∷ codes "machdep.cpu.brand_string"
    ∷ codes "machdep.cpu.core_count"
    ∷ codes "machdep.cpu.thread_count"
    ∷ codes "machdep.memmap.Conventional"
    ∷ codes "hw.memsize"
    ∷ codes "hw.pagesize"
    ∷ codes "hw.cpufrequency"
    ∷ codes "hw.busfrequency"
    ∷ []

unfoldable pub write_info_about_mac_host_to_report : Host → Bytes
write_info_about_mac_host_to_report h = concat_lines (mac_sysctl_report_line h) mac_keys

unfoldable pub env_or : Host → Bytes → Bytes → Bytes
env_or h key default = elim (h.lookup_env key) [ none ↦ default | some val ↦ val ]

-- From the Go version to the line before the context parameters.
unfoldable pub host_lines : Host → Bytes
host_lines h =
    codes "Go ver:                      "
    ++ (h.version
        ++ (codes "\nGOARCH:                      "
            ++ (h.goarch
                ++ (codes "\nGOOS:                        "
                    ++ (h.goos
                        ++ (codes "\nNumCPU:                      "
                            ++ (sprint_d h.num_cpu
                                ++ (codes "\nGOMAXPROCS:                  "
                                    ++ (sprint_d h.gomaxprocs
                                        ++ (codes "\nNumGoroutine:                "
                                            ++ (sprint_d h.num_goroutine
                                                ++ (codes "\nSetMemoryLimit:              "
                                                    ++ (number_grouped h.memory_limit (codes ",")
                                                        ++ (codes
                                                            " bytes\nGOGC:                        "
                                                            ++ (env_or h (codes "GOGC") []
                                                            ++ (codes "\n"
                                                            ++ ((if is_darwin h
                                                            then write_info_about_mac_host_to_report
                                                            h
                                                            else [])
                                                            ++ (codes
                                                            "LINES:                       "
                                                            ++ (env_or h (codes "LINES") (codes "?")
                                                            ++ (codes
                                                            "\nCOLUMNS:                     "
                                                            ++ (env_or h (codes "COLUMNS")
                                                            (codes "?")
                                                            ++ (codes
                                                            "\nHOST:                        "
                                                            ++ (env_or h (codes "HOST") []
                                                            ++ (codes
                                                            "\nTERM:                        "
                                                            ++ (env_or h (codes "TERM") []
                                                            ++ codes "\n\n")))))))))))))))))))))))))
