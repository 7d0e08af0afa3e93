-- ===== src/Mage/Containers.antt =====
-- magefile.go: Shell, Test and buildTestImg, and what they share with Bins.
use configmapsecrets.Prelude.{Text, codes, Bool, true, false, List, [], ◌∷◌, ◌++◌}
use configmapsecrets.Runtime.{Exec, ◌>>=◌, ◌>>◌, pure}
use configmapsecrets.Mage.System.{
  System, Build, truncate, build_test_img, mk_build_dirs, pull_build_image, call, ask, need,
  finally,
}
use configmapsecrets.Mage.Files.{file_exists, touch_file, append_file, mk_dir, rm_dir}
use configmapsecrets.Mage.Dates.{should_do}
use configmapsecrets.Mage.Users.{with_user_args}
use configmapsecrets.Mage.Names.{join_path, build_image, test_image, cache_path, image_build_path}

module _ {W : Type 0} (sys : System W) where
  -- mkBuildDirs
  unfoldable pub make_build_dirs : Exec (Build W) (Unit {0})
  unfolding cache_path mk_dir
  make_build_dirs = do
    bin ← cache_path sys (codes "bin" ∷ [])
    mk_dir sys bin
    cache ← cache_path sys (codes "cache" ∷ [])
    mk_dir sys cache

  -- The arguments that Shell, Test and Bins share: the mounts, the environment and the image
  unfoldable pub container_args :
      List Text → List Text → Text → List Text → Exec (Build W) (List Text)
  unfolding cache_path with_user_args
  container_args args environment image command = do
    pwd ← call sys.working_dir
    with_user ← with_user_args sys args
    bin ← cache_path sys (codes "bin" ∷ [])
    cache ← cache_path sys (codes "cache" ∷ [])
    home ← cache_path sys (codes "home" ∷ [])
    http ← ask (sys.get_env (codes "HTTP_PROXY"))
    https ← ask (sys.get_env (codes "HTTPS_PROXY"))
    pure (
        with_user
        ++ (codes "-w"
            ∷ codes "/src"
            ∷ codes "-v"
            ∷ (pwd ++ codes ":/src")
            ∷ codes "-v"
            ∷ (bin ++ codes ":/go/bin")
            ∷ codes "-v"
            ∷ (cache ++ codes ":/go/cache")
            ∷ codes "-v"
            ∷ (home ++ codes ":/home")
            ∷ codes "--env"
            ∷ codes "HOME=/home"
            ∷ codes "--env"
            ∷ codes "CGO_ENABLED=0"
            ∷ codes "--env"
            ∷ codes "GO111MODULE=on"
            ∷ codes "--env"
            ∷ codes "GOCACHE=/go/cache"
            ∷ (environment
                ++ (codes "--env"
                    ∷ (codes "HTTP_PROXY=" ++ http)
                    ∷ codes "--env"
                    ∷ (codes "HTTPS_PROXY=" ++ https)
                    ∷ image
                    ∷ command))))

  -- Shell
  unfoldable pub shell : Exec (Build W) (Unit {0})
  unfolding container_args
  shell = do
    need sys (build_test_img ∷ mk_build_dirs ∷ [])
    args ←
        container_args (codes "run" ∷ codes "-ti" ∷ codes "--rm" ∷ []) [] test_image
          (codes "/bin/sh" ∷ [])
    call (sys.run_shell (codes "docker" ∷ args))

  unfoldable pub run_tests : Text → Bool → Exec (Build W) (Unit {0})
  unfolding container_args touch_file
  run_tests test_path false = pure tt
  run_tests test_path true = do
    need sys (build_test_img ∷ mk_build_dirs ∷ [])
    args ←
        container_args (codes "run" ∷ codes "-i" ∷ codes "--rm" ∷ []) [] test_image
          (codes "/bin/sh" ∷ codes "-c" ∷ codes "/src/hack/test.sh cmd pkg" ∷ [])
    call (sys.run [] (codes "docker" ∷ args))
    touch_file sys test_path

  -- Test
  unfoldable pub test : Exec (Build W) (Unit {0})
  unfolding run_tests cache_path should_do
  test = do
    test_path ← cache_path sys (codes "test" ∷ [])
    due ← should_do sys (test_path ∷ [])
    run_tests test_path due

  -- The text of the Dockerfile of buildTestImg
  abbrev pub test_docker_file : Text
  test_docker_file =
      codes "FROM "
      ++ (build_image
          ++ codes
              "\nRUN wget --quiet -O - \"https://storage.googleapis.com/kubebuilder-tools/kubebuilder-tools-1.24.2-$(go env GOOS)-$(go env GOARCH).tar.gz\" | tar --extract --gzip --directory /usr/local\n")

  -- buildTestImg once the directory is there; rmDir and f.Close are deferred.
  unfoldable pub build_test_in : Text → Text → Exec (Build W) (Unit {0})
  unfolding join_path append_file
  build_test_in img_path d = do
    file ← call (sys.open_file truncate (join_path d (codes "Dockerfile")))
    finally
        (do
          call (sys.write file test_docker_file)
          call (sys.run [] (codes "docker" ∷ codes "build" ∷ codes "-t" ∷ test_image ∷ d ∷ []))
          id ← call (sys.output [] (codes "docker" ∷ codes "images" ∷ codes "-q" ∷ test_image ∷ []))
          append_file sys img_path id)
        (call (sys.close file))

  unfoldable pub build_test_missing : Text → Bool → Exec (Build W) (Unit {0})
  unfolding build_test_in rm_dir
  build_test_missing img_path true = pure tt
  build_test_missing img_path false = do
    need sys (pull_build_image ∷ [])
    d ← call (sys.temp_dir (codes "kubebuilder"))
    finally (build_test_in img_path d) (rm_dir sys d)

  -- buildTestImg
  unfoldable pub build_the_test_img : Exec (Build W) (Unit {0})
  unfolding build_test_missing image_build_path file_exists
  build_the_test_img = do
    img_path ← image_build_path sys test_image
    there ← file_exists sys img_path
    build_test_missing img_path there
