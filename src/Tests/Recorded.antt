-- ===== src/Tests/Recorded.antt =====
-- The ids of two images in a file.
use configmapsecrets.Prelude.{
  Text, codes, text_eq, text_equality, lookup, insert, none, List, [], ◌∷◌, ◌++◌, true, false, ◌||◌,
  ◌≡◌, refl, ap, sym,
}
use configmapsecrets.RefMap.{StringSet}
use configmapsecrets.RefMap.Assign.{mentions}
use configmapsecrets.Runtime.{ok, err, ForeignError, ◌>>=◌}
use configmapsecrets.Genapi.Texts.{split, lacks}
use configmapsecrets.Genapi.Markdown.{trim_space}
use configmapsecrets.Mage.System.{System, Build}
use configmapsecrets.Mage.Files.{append_file, put_line, mk_dir, write_line, line_text, ends_line}
use configmapsecrets.Mage.Names.{join_path}
use configmapsecrets.Mage.Images.{add_ids, ids_of_files}
use configmapsecrets.Mage.Images.Ids.{
  any_id, are_lines, KeepsFile, append_each, ids_of_files-append_each,
}

abbrev odd : ForeignError
odd = record { reason = codes "Odd"; message = codes "odd" }

-- An outside of one file, which every path names
abbrev one_file : System Text
one_file = record {
  stat = λ path w. (ok 1, w);
  read_dir = λ path w. (ok [], w);
  read_file = λ path w. (ok w, w);
  glob = λ pattern w. (ok [], w);
  make_dirs = λ path w. (ok tt, w);
  remove_file = λ path w. (ok tt, []);
  remove_all = λ path w. (ok tt, []);
  change_times = λ path time w. (ok tt, w);
  link_file = λ a b w. (ok tt, w);
  temp_dir = λ p w. (ok p, w);
  temp_file = λ p w. (ok (p, 3), w);
  open_file = λ mode path w. (ok 4, w);
  write = λ file text w. (ok tt, w ++ text);
  close = λ file w. (ok tt, w);
  working_dir = λ w. (ok (codes "/src"), w);
  get_env = λ name w. ([], w);
  now = λ w. (7, w);
  unix = λ t. t;
  current_user = λ w. (ok (record { uid = codes "1000"; gid = codes "100" }), w);
  run = λ env command w. (ok tt, w);
  output = λ env command w. (ok [], w);
  run_shell = λ command w. (ok tt, w);
  go_cmd = λ w. (codes "go", w);
  newer_sources = λ dst srcs w. (ok true, w);
  deps = λ targets s. (ok tt, s);
  is_not_exist = λ e. true;
  is_exist = λ e. false;
  parse_manifests = λ out. ok [];
  not_a_number = λ s. odd;
}

abbrev no_images : Build Text
no_images = record {
  world = [];
  version = codes "v1";
  revision = codes "f00";
  branch = codes "main";
  base_images = none;
  podman = none;
}

abbrev recorded : List Text
recorded = codes "ab12" ∷ codes "" ∷ codes " cd34 " ∷ []

abbrev found_ids : StringSet
found_ids = (codes "ab12", true) ∷ (codes "cd34", true) ∷ []

one_file-KeepsFile : KeepsFile one_file (join_path (codes "/d") (codes "f")) (λ w. w) (λ h w. true)
one_file-KeepsFile = record {
  make_dirs = λ d w. refl;
  open_file = λ h w e. (refl, refl);
  write = λ h text w o e. refl;
  close = λ h w. refl;
  read_file = λ buf w e. ap (λ r. elim r [ ok b ↦ b | err c ↦ buf ]) (sym e);
}

ids_of_files-append_each_example :
    mentions found_ids (codes "cd34")
    ≡ (any_id recorded (codes "cd34") || mentions [] (codes "cd34"))
unfolding append_each append_file put_line mk_dir write_line line_text ends_line ids_of_files
    add_ids split trim_space lookup insert text_eq are_lines lacks ◌>>=◌
ids_of_files-append_each_example =
    ids_of_files-append_each one_file (codes "/d") (codes "f") (λ w. w) (λ h w. true)
      one_file-KeepsFile recorded [] found_ids (codes "cd34") no_images refl refl refl refl

any_id_run : any_id recorded (codes "cd34") ≡ true
unfolding any_id text_eq trim_space
any_id_run = refl
