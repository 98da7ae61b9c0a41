-- ===== src/Tests/Data.antt =====
-- A host with the mitigation in place, and one with a dangling link in /etc/modprobe.d.
use copyfail_validation.Base.{
  List, [], ◌∷◌, ◌++◌, true, false, is_empty, ◌≡◌, none, some, if◌then◌else◌,
}
use copyfail_validation.Base.Int.{pos}
use copyfail_validation.Text.{Text, codes, equal, is_space}
use copyfail_validation.Text.Laws.{IsWord}
use copyfail_validation.Text.Words.{is_free, is_free-Free}
use copyfail_validation.Text.Scan.{Reader}
use copyfail_validation.Errors.{Error, Outcome, Try, ok, err, not_exist, sentinel, lit}
use copyfail_validation.Exec.{Cmd, Result, empty_result, trusted, untrusted}
use copyfail_validation.Exec.Runner.{Process, System}
use copyfail_validation.Kernelmod.Conf.{ConfDirective}
use copyfail_validation.Kernelmod.ConfDir.{symlink, regular, FileInfo, Entry, Files}
use copyfail_validation.Report
use copyfail_validation.Report.Tally.{new_summary}
use copyfail_validation.Preset.Bundle.{Host, Options}

abbrev pub absent : Error
absent = sentinel not_exist (lit "file does not exist")

abbrev pub conf_reader : Reader Error
conf_reader = record {
  content = codes "# block\nblacklist algif_aead\ninstall algif_aead /bin/false\n";
  failure = none;
}

abbrev pub modules_reader : Reader Error
modules_reader = record { content = codes "ext4 1000 1 - Live 0x0\n"; failure = none }

unfoldable pub open_file : Text → Try (Reader Error)
unfolding equal
open_file path = if equal path (codes "/proc/modules") then ok modules_reader else ok conf_reader

abbrev pub link : Entry
link = record { name = codes "a.conf"; info = ok symlink }

abbrev pub plain_file : Entry
plain_file = record { name = codes "b.conf"; info = ok regular }

abbrev pub regular_info : FileInfo
regular_info = record { mode = regular; mode_text = codes "-rw-r--r--"; size = 59 }

abbrev pub path_join : Text → Text → Text
path_join dir name = dir ++ (codes "/" ++ name)

abbrev pub files : Files
files = record {
  eval_symlinks = ok;
  abs = ok;
  open_file = open_file;
  read_dir = λ dir. ok (plain_file ∷ link ∷ []);
  stat = λ path. ok regular_info;
  path_join = path_join;
}

-- Every path that os.Stat is asked for is absent.
abbrev pub dangling_files : Files
dangling_files = record {
  eval_symlinks = ok;
  abs = ok;
  open_file = open_file;
  read_dir = λ dir. ok (plain_file ∷ link ∷ []);
  stat = λ path. err absent;
  path_join = path_join;
}

abbrev pub process : Process
process = record {
  stdout = codes "install " ∷ codes "/bin/false \n" ∷ [];
  stderr = [];
  failure = none;
  exit_code = some (pos 0);
  deadline_passed = false;
  duration = 1000;
}

abbrev pub system : System
system = record {
  paths = record { exists = λ path. true; look_path = λ name. err absent };
  path_env = codes "/sbin:/bin";
  launch = λ l. process;
}

abbrev pub host : Host
host = record { files = files; system = system; clock = λ id. 1 }

abbrev pub runner : Cmd → Outcome Result
runner cmd = record {
  value = record empty_result { stdout = codes "install /bin/false \n" };
  err = none;
}

abbrev pub options : Options
options = record { runner = some runner; module_name = []; conf_path = []; modprobe_dir = [] }

abbrev pub modprobe : Cmd
modprobe = record {
  name = codes "modprobe";
  args = trusted (codes "-n") ∷ untrusted (codes "algif_aead") ∷ [];
  env = none;
  timeout = pos 0;
}

abbrev pub install_line : ConfDirective
install_line = record {
  source = codes "x.conf";
  module_name = codes "algif_aead";
  kind = codes "install";
  args = codes "/bin/false" ∷ [];
  line_num = 1;
}

abbrev pub blacklist_line : ConfDirective
blacklist_line = record {
  source = codes "x.conf";
  module_name = codes "algif_aead";
  kind = codes "blacklist";
  args = [];
  line_num = 2;
}

pub is_word : (s : Text) → is_free is_space s ≡ true → is_empty s ≡ false → IsWord s
is_word s h n = record { no_space = is_free-Free is_space s h; not_empty = n }

abbrev pub report_of : List Report.Result → Report.Report
report_of rs = record {
  generated = 1;
  host = record { hostname = []; kernel_release = []; os_release = []; os_version = []; arch = [] };
  tool = record { name = []; version = []; commit = []; build_date = [] };
  schema_version = Report.schema_version_current;
  results = rs;
  summary = new_summary rs;
}
