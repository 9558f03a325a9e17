-- ===== src/Tests/Proc.antt =====
-- The process files, and the identity that is read of them.
use peepbooth.Base.{◌≡◌, refl, List, [], ◌∷◌, some, none, not, ◌==◌, ◌&&◌, arith}
use peepbooth.Base.Text.{Text, codes, to_string, find?}
use peepbooth.ProcFile.{split_fields, parse_proc_stat, parse_proc_status}
use peepbooth.ProcFile.Fields.{fields_of, split_fields-fields_of}
use peepbooth.ProcFile.Stat.{stat_line, stat_fields, parse_proc_stat-stat_line}
use peepbooth.ProcFile.Memory.{
  OnLine, named_file, parse_proc_status-Shows, parse_proc_status-named_file,
}
use peepbooth.Platform.Kernel.{Kernel}
use peepbooth.Platform.ProcessWatch.{ProcessHandle, alive}
use peepbooth.Platform.ProcessWatch.Identity.{Printed, has_gone, alive-Printed}
use peepbooth.Tests.System.{granting, quiet_world}

fields_run : split_fields 12 (codes "  ab c   d ") ≡ codes "ab" ∷ codes "c" ∷ codes "d" ∷ []
unfolding split_fields
fields_run = refl

split_fields-fields_of_example :
    split_fields 12 (codes "  ab c   d ") ≡ fields_of (codes "  ab c   d ")
split_fields-fields_of_example = split_fields-fields_of 12 (codes "  ab c   d ") (omega arith)

abbrev early : List Text
early =
    codes "S"
    ∷ codes "1"
    ∷ codes "2"
    ∷ codes "3"
    ∷ codes "4"
    ∷ codes "5"
    ∷ codes "6"
    ∷ codes "7"
    ∷ codes "8"
    ∷ codes "9"
    ∷ codes "10"
    ∷ []

abbrev middle : List Text
middle = codes "13" ∷ codes "14" ∷ codes "15" ∷ codes "16" ∷ codes "17" ∷ codes "18" ∷ []

-- A command with a bracket and spaces in it.
abbrev head : Text
head = codes "42 (a) b (c"

parse_proc_stat-stat_line_example :
    parse_proc_stat (stat_line head (stat_fields early 11 12 middle 77 (codes "20" ∷ [])))
    ≡ some (record { cpu_ticks = 23; start_ticks = 77 })
parse_proc_stat-stat_line_example =
    parse_proc_stat-stat_line head early middle (codes "20" ∷ []) 11 12 77 refl refl refl refl refl
      (omega arith) (omega arith) (omega arith)

abbrev status_file : Text
status_file = codes "Name:\tsample\nVmHWM:\t   900 kB\nVmRSS:\t   700 kB\nThreads:\t1\n"

rss_line : OnLine status_file (codes "VmRSS:") 700
unfolding find? to_string
rss_line = record {
  before = codes "Name:\tsample" ∷ codes "VmHWM:\t   900 kB" ∷ [];
  blanks = codes "\t   ";
  unit = codes " kB";
  after = codes "Threads:\t1\n";
  text = refl;
  first = refl;
  blank = refl;
  ends = refl;
  small = omega arith;
}

high_line : OnLine status_file (codes "VmHWM:") 900
unfolding find? to_string
high_line = record {
  before = codes "Name:\tsample" ∷ [];
  blanks = codes "\t   ";
  unit = codes " kB";
  after = codes "VmRSS:\t   700 kB\nThreads:\t1\n";
  text = refl;
  first = refl;
  blank = refl;
  ends = refl;
  small = omega arith;
}

parse_proc_status-Shows_example :
    parse_proc_status status_file
    ≡ some (record { rss_bytes = 716_800; high_water_bytes = 921_600; swap_bytes = 0 })
unfolding find?
parse_proc_status-Shows_example =
    parse_proc_status-Shows status_file (some 700) (some 900) none rss_line high_line refl

parse_proc_status-named_file_example :
    parse_proc_status (named_file (codes "my") (codes "\nVmRSS:\t   700 kB\n")) ≡ none
parse_proc_status-named_file_example =
    parse_proc_status-named_file (codes "my") (codes "\nVmRSS:\t   700 kB\n") refl

-- A kernel whose file for every process shows the start time 77.
abbrev printing : Kernel
printing = record granting {
  contents = λ _. some (stat_line head (stat_fields early 11 12 middle 77 (codes "20" ∷ [])));
}

printed : Printed printing 42 77
printed = record {
  head = head;
  early = early;
  middle = middle;
  late = codes "20" ∷ [];
  user = 11;
  system = 12;
  eleven = refl;
  six = refl;
  early_fields = refl;
  middle_fields = refl;
  late_fields = refl;
  user_small = omega arith;
  system_small = omega arith;
  start_small = omega arith;
  text = λ _. refl;
}

abbrev handle : ProcessHandle
handle = record { identity = record { pid = 42; start_ticks = 76 }; pid_descriptor = none }

alive-Printed_example :
    (alive printing handle quiet_world).0 ≡ (not (has_gone printing handle []) && (77 == 76))
alive-Printed_example = alive-Printed printing handle 77 quiet_world printed
