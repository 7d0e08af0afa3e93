-- ===== src/Mage/Files.antt =====
-- magefile.go: fileExists, touchFile, writeFile, appendFile, writeLine, mkDir and rmDir.
use configmapsecrets.Prelude.{ℕ, Text, nat_eq, Bool, true, false, [], ◌∷◌, ◌++◌, if◌then◌else◌}
use configmapsecrets.Runtime.{Result, ok, err, Error, ForeignError, foreign, Exec, ◌>>=◌, ◌>>◌}
use configmapsecrets.Genapi.Idents.{dir}
use configmapsecrets.Mage.System.{System, Build, Mode, truncate, append, call, ask, finally}

-- strings.HasSuffix(s, "\n")
unfoldable pub ends_line : Text → Bool
ends_line [] = false
ends_line (c ∷ []) = nat_eq c 10
ends_line (c ∷ d ∷ s) = ends_line (d ∷ s)

-- The text that writeLine writes
unfoldable pub line_text : Text → Text
unfolding ends_line
line_text msg = if ends_line msg then msg else msg ++ 10 ∷ []

module _ {W : Type 0} (sys : System W) where
  -- The switch of fileExists
  abbrev pub exists_if : {W : Type 0} → System W → Result ForeignError ℕ → Result Error Bool
  exists_if sys (ok _) = ok true
  exists_if sys (err e) = if sys.is_not_exist e then ok false else err (foreign e)

  -- fileExists
  unfoldable pub file_exists : Text → Exec (Build W) Bool
  file_exists path s =
      let (r, w) = sys.stat path s.world in (exists_if sys r, record s { world = w })

  -- mkDir
  unfoldable pub mk_dir : Text → Exec (Build W) (Unit {0})
  mk_dir path = call (sys.make_dirs path)

  -- rmDir
  unfoldable pub rm_dir : Text → Exec (Build W) (Unit {0})
  rm_dir path = call (sys.remove_all path)

  -- writeLine
  unfoldable pub write_line : ℕ → Text → Exec (Build W) (Unit {0})
  unfolding line_text
  write_line file msg = call (sys.write file (line_text msg))

  -- writeFile and appendFile, by the mode; f.Close is deferred.
  unfoldable pub put_line : Mode → Text → Text → Exec (Build W) (Unit {0})
  unfolding mk_dir write_line
  put_line mode path msg = do
    mk_dir (dir path)
    file ← call (sys.open_file mode path)
    finally (write_line file msg) (call (sys.close file))

  unfoldable pub write_file : Text → Text → Exec (Build W) (Unit {0})
  unfolding put_line
  write_file = put_line truncate

  unfoldable pub append_file : Text → Text → Exec (Build W) (Unit {0})
  unfolding put_line
  append_file = put_line append

  -- The error of os.Chtimes in touchFile, unless there is no file
  abbrev pub unless_missing :
      {W : Type 0} → System W → Result ForeignError (Unit {0}) → Result Error (Unit {0})
  unless_missing sys (ok u) = ok u
  unless_missing sys (err e) = if sys.is_not_exist e then ok tt else err (foreign e)

  -- touchFile
  unfoldable pub touch_file : Text → Exec (Build W) (Unit {0})
  unfolding mk_dir
  touch_file path = do
    time ← ask sys.now
    λ s.
        let (r, w) = sys.change_times path time s.world in
        (unless_missing sys r, record s { world = w })
    mk_dir (dir path)
    file ← call (sys.open_file truncate path)
    call (sys.close file)
