-- ===== src/Tests/Kernelmod.antt =====
-- Runs of the parsers and queries of internal/kernelmod.
use copyfail_validation.Base.{
  ℕ, List, [], ◌∷◌, Bool, ◌≡◌, ◌↔◌, refl, arith, none, some, map, All, ◌==◌,
}
use copyfail_validation.Text.{Text, codes, is_space, has_suffix, join}
use copyfail_validation.Text.Lines.{unlines}
use copyfail_validation.Text.Scan.{byte_size}
use copyfail_validation.Errors.{Outcome}
use copyfail_validation.Kernelmod.Conf.{ConfDirective, install_target, parse_conf_reader}
use copyfail_validation.Kernelmod.Conf.Queries.{LastInstall, install_target-LastInstall}
use copyfail_validation.Kernelmod.Conf.Print.{
  IsPrintable, print, located, parse_conf_reader-unlines,
}
use copyfail_validation.Kernelmod.ConfDir.{parse_conf_dir}
use copyfail_validation.Kernelmod.ConfDir.Whole.{IsWhole, parse_conf_dir-IsWhole}
use copyfail_validation.Exec.{Cmd, Result}
use copyfail_validation.Tests.Data.{
  files, plain_file, link, install_line, blacklist_line, runner, is_word,
}
use copyfail_validation.Text.Words.{is_free-Free}

abbrev is_hash : ℕ → Bool
is_hash c = c == b'#'

abbrev lines : List ConfDirective
lines = install_line ∷ blacklist_line ∷ []

lines-IsPrintable : All IsPrintable lines
unfolding print is_space has_suffix byte_size join
lines-IsPrintable = (
  record {
    of_words = (
      is_word (codes "install") refl refl,
      (is_word (codes "algif_aead") refl refl, (is_word (codes "/bin/false") refl refl, tt)),
    );
    no_comment = (
      is_free-Free is_hash (codes "install") refl,
      (
        is_free-Free is_hash (codes "algif_aead") refl,
        (is_free-Free is_hash (codes "/bin/false") refl, tt),
      ),
    );
    no_continuation = refl;
    short = omega arith;
  },
  (
    record {
      of_words =
          (is_word (codes "blacklist") refl refl, (is_word (codes "algif_aead") refl refl, tt));
      no_comment = (
        is_free-Free is_hash (codes "blacklist") refl,
        (is_free-Free is_hash (codes "algif_aead") refl, tt),
      );
      no_continuation = refl;
      short = omega arith;
    },
    tt,
  ),
)

parse_conf_reader-unlines_example :
    parse_conf_reader
      (record { content = unlines (map print lines); failure = none })
      (codes "x.conf")
    ≡ record { value = located (codes "x.conf") 1 lines; err = none }
parse_conf_reader-unlines_example =
    parse_conf_reader-unlines (codes "x.conf") lines lines-IsPrintable

install_target-LastInstall_example :
    (install_target lines (codes "algif_aead") ≡ some (codes "/bin/false"))
    ↔ LastInstall (codes "algif_aead") lines (some (codes "/bin/false"))
install_target-LastInstall_example =
    install_target-LastInstall (codes "algif_aead") lines (some (codes "/bin/false"))

parse_conf_dir-IsWhole_example :
    IsWhole files
      (codes "/etc/modprobe.d")
      (plain_file ∷ link ∷ [])
      (parse_conf_dir files (codes "/etc/modprobe.d"))
parse_conf_dir-IsWhole_example =
    parse_conf_dir-IsWhole files (codes "/etc/modprobe.d") (plain_file ∷ link ∷ []) refl

abbrev commented : List Text
commented = codes "blacklist algif_aead # see \\" ∷ codes "install algif_aead /bin/false" ∷ []

abbrev run_once : List Cmd → Cmd → Outcome Result × List Cmd
run_once calls cmd = (runner cmd, cmd ∷ calls)
