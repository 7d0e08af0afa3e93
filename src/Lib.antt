-- ===== src/Lib.antt =====
-- Verification library of the ConfigMapSecret controller.
--
-- The program is a Kubernetes controller. A ConfigMapSecret holds a template and a list of
-- variables, some of them taken from Secrets and ConfigMaps; the controller renders the template
-- into a Secret of the same namespace and keeps that up to date.
--
-- Parts, by file:
--   RefMap.antt               pkg/controllers/refmap.go: which sources refer to which objects
--   Conditions.antt           pkg/controllers/conditions.go: the conditions of a status
--   Api.antt                  pkg/api/v1alpha1/configmapsecret_types.go: the resource
--     Memory.antt             the same types with the addresses of their pointers, slices and maps
--       Copies.antt           pkg/api/v1alpha1/zz_generated.deepcopy.go: DeepCopyInto, DeepCopy and
--                             DeepCopyObject of each type
--   Runtime.antt              the reconciler's state, its errors, and the other packages as
--                             parameters: Client (the API server) and Library
--   Controller/               pkg/controllers/configmapsecret_controller.go:
--     Variables.antt          validPrefixedKey, secret(s), configMap(s) and their values
--     MakeVariables.antt      makeVariables
--     Refs.antt               varRefs, setRefs, getOwner, the event handlers
--     Render.antt             renderSecret
--     Owner.antt              setOwner, shouldUpdate
--     Status.antt             syncStatus, syncSuccessStatus, syncRenderFailureStatus
--     Sync.antt               sync
--     Reconcile.antt          cleanup, Reconcile
--     Manager.antt            the events that SetupWithManager watches
--     Steps.antt              what the handlers, Reconciles and other clients do, in any order
--     Settled.antt            when a sync and a Reconcile have nothing to do
--   Command.antt              cmd/configmapsecret-controller/main.go, and SetupWithManager
--   Genapi/                   pkg/genapi: the generator of the API's documentation
--     Tags.antt               pkg/genapi/internal/jsontags/jsontags.go: Parse, Contains
--     Markdown.antt           mdDoc, mdSectionLink
--     Idents.antt             packageIdent, removeNonAlphaNum, isVersion
--     Packages.antt           Package and its parts, sortedNames
--     Types.antt              mdType
--     Print.antt              WriteMarkdown and the functions that print
--     Options.antt            WithScheme, WithGroupVersion
--     Docs.antt               fmtRawDoc, hasComment
--     Fields.antt             structFields, and AstField and FieldDoc of
--                             pkg/genapi/internal/internal.go
--     Constants.antt          constValues, and the constants of ParsePackage
--     Load.antt               ParsePackage, and LoadPackage and Packages of
--                             pkg/genapi/internal/internal.go
--   Mage/                     magefile.go: the build script
--     System.antt             its variables, and the outside as a parameter: System
--     Files.antt              fileExists, touchFile, writeFile, appendFile, mkDir, rmDir
--     Dates.antt              earliestMod, shouldDo
--     Users.antt              withUserArgs, isPodman
--     Names.antt              the methods of target, and the names of images and of files
--     Images.antt             archBaseImage, pullImage, imageIDs, Clean, shouldDoBins and its kin
--     Containers.antt         Shell, Test, buildTestImg
--     Bins.antt               buildinfoLDFlags, Bins
--     Generate.antt           Generate and what it runs
--     Publish.antt            Imgs, buildImg, Push
--   Buildinfo.antt            pkg/buildinfo/info.go: init, Collector, Print
-- The modules below these hold the proofs. Controller/Keeps.antt and Controller/Stable.antt carry
-- invariants through the reads and writes of a Reconcile. Prelude.antt has the shared names, texts
-- as lists of bytes and maps as association lists; Tests.antt has runs and instances.
--
-- A method of the reconciler is a function that takes the state (Runtime.State) and returns its
-- results and the new state. A Reconcile calls setRefs, then sync (makeVariables, renderSecret,
-- Get and Create, or Get, setOwner and Update, then the status), then cleanup. The event handlers
-- read the reference maps that setRefs writes. Every call of the client may change the cluster, so
-- other clients of the API server may act between any two calls.
--
-- The build script runs beside the controller: it builds it and has the linker set the variables of
-- pkg/buildinfo. Its functions take and return its variables and the outside (System.Build). The
-- files that they make under .mage record what is done, and tell the targets what is due.
--
-- Maps are association lists: the order stands for Go's unspecified order of iteration, and the
-- theorems hold for every order. Each loop is over a list, but for that of Contains and those of
-- printing a number, which run on fuel: the length of the text, the number, which each round makes
-- smaller, and for %0X the sixteen digits of a number of 64 bits (Mage/Generate/Digits.antt). The
-- recursion of structFields into inlined structs has the depth of the inlining as its fuel;
-- Fields/Depth.antt says how much is enough.
--
-- Not modelled: the expansion package under third_party and the vendored packages, whose calls are
-- parameters; printing, logging and the targets that only print; the hook for tests; the flags of
-- zapr and the handler of signals; the methods and the log of
-- pkg/buildinfo that only call libraries; golang.org/x/tools and go/doc, whose view of a package is
-- the argument of Load.antt. The tables of the Unicode standard are arguments (Idents.Unicode), and
-- so are docker, git, the file system and the packages of mage (Mage/System.antt); that mg.Deps runs
-- a function only once is not used. Generations and times are natural numbers. The server's answer
-- to Status().Update is stored in the ConfigMapSecret, from which cleanup reads; the answers to
-- Create and Update of a Secret, which the code does not read again, are left out.
pub mod Prelude
pub mod RefMap
pub mod Api
pub mod Command
pub mod Conditions
pub mod Runtime
pub mod Controller
pub mod Genapi
pub mod Mage
pub mod Buildinfo
pub mod Tests
