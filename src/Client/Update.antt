-- ===== src/Client/Update.antt =====
-- internal/client/update.go: `runUpdate`. What the stream, the file system and the new binary do is a
-- parameter, the record `Host`; texts of errors are left out. A size below zero stands as 0.
pub mod Installed
use spawn_relay.Common.{
  ℕ, ◌==◌, ◌*◌, Bool, true, false, not, ◌&&◌, ◌||◌, List, [], ◌∷◌, ◌++◌, Option, none, some, Text,
  text_eq, is_empty, ltb, length, take, if◌then◌else◌,
}
use spawn_relay.Server.Clients.{equal_fold}

abbrev pub Binary : Type 0
Binary = List ℕ

-- `protocol.UpdateInfo`, less the name
pub record UpdateInfo : Type 0 where
  pub version : Text
  pub size : ℕ
  pub sha256 : Text

-- `protocol.DownloadResponse`
pub record DownloadResponse : Type 0 where
  pub ok : Bool
  pub size : ℕ
  pub sha256 : Text

-- the files `exe`, `tmp` and `exe.old`, and the flag `updating`
pub record Device : Type 0 where
  pub exe : Option Binary
  pub tmp : Option Binary
  pub old : Option Binary
  pub updating : Bool

-- What the steps meet, in their order: the configuration, the header and the body of the stream, the
-- output of the new binary (`none` where it does not run), and whether each rename succeeds. The header is
-- `none` too where the stream cannot be opened.
pub record Host : Type 0 where
  pub allow_update : Bool
  pub version : Text
  pub located : Bool
  pub response : Option DownloadResponse
  pub creates : Bool
  pub body : Binary
  pub copied : Bool
  pub digest : Binary → Text
  pub output : Binary → Option Text
  pub windows : Bool
  pub keeps : Bool
  pub installs : Bool
  pub returns : Bool
  pub restarts : Bool

-- the statuses that are sent to the server
pub data Status : Type 0 where
  downloading installing restarting failed : Status

abbrev pub max_binary_size : ℕ
max_binary_size = 268435456

abbrev pub remove_tmp : Device → Device
remove_tmp d = record d { tmp = none }

-- `fold` as in `strings.EqualFold`
module _ (fold : ℕ → ℕ) where
  -- the tests of `download` on the header
  abbrev pub announced : UpdateInfo → Option DownloadResponse → Bool
  announced info none = false
  announced info (some r) = r.ok && r.size == info.size && equal_fold fold r.sha256 info.sha256

  -- those on the body
  abbrev pub intact : Host → UpdateInfo → Binary → Bool
  intact h info b = h.copied && length b == info.size && equal_fold fold (h.digest b) info.sha256

  -- `download`: whether it returns no error
  pub download : Host → UpdateInfo → Device → Device × Bool
  download h info d =
      if info.size == 0 || ltb max_binary_size info.size
      then (d, false)
      else if not (announced info h.response)
      then (d, false)
      else if not h.creates
      then (d, false)
      else (record d { tmp = some (take info.size h.body) }, intact h info (take info.size h.body))

-- `verifyBinary`
abbrev pub reports : Text → Option Text → Bool
reports expected none = false
reports expected (some got) = not (is_empty got) && (is_empty expected || text_eq got expected)

abbrev pub verified : Host → UpdateInfo → Option Binary → Bool
verified h info none = false
verified h info (some b) = reports info.version (h.output b)

-- `installBinary`: whether it returns no error
pub install : Host → Device → Device × Bool
install h d =
    if not h.windows
    then (if h.installs then (record d { exe = d.tmp; tmp = none }, true) else (d, false))
    else if not h.keeps
    then (record d { old = none }, false)
    else if h.installs
    then (record d { exe = d.tmp; tmp = none; old = d.exe }, true)
    else if h.returns
    then (record d { old = none }, false)
    else (record d { exe = none; old = d.exe }, false)

-- `doUpdate` behind the download
pub verify_and_install : Host → UpdateInfo → Device → Device × List Status
unfolding install
verify_and_install h info d =
    if not (verified h info d.tmp)
    then (remove_tmp d, installing ∷ failed ∷ [])
    else let (e, good) = install h d in
      if not good
      then (remove_tmp e, installing ∷ failed ∷ [])
      else (e, installing ∷ restarting ∷ (if h.restarts then [] else failed ∷ []))

module _ (fold : ℕ → ℕ) where
  -- `doUpdate`, with the status that `runUpdate` sends on an error
  pub do_update : Host → UpdateInfo → Device → Device × List Status
  unfolding download verify_and_install
  do_update h info d =
      if not (is_empty info.version) && text_eq info.version h.version
      then (d, failed ∷ [])
      else if not h.located
      then (d, failed ∷ [])
      else let (e, good) = download fold h info d in
        if not good
        then (remove_tmp e, downloading ∷ failed ∷ [])
        else let (g, sent) = verify_and_install h info e in (g, downloading ∷ sent)

  -- `runUpdate`
  unfoldable pub run_update : Host → UpdateInfo → Device → Device × List Status
  unfolding do_update
  run_update h info d =
      if not h.allow_update
      then (d, failed ∷ [])
      else if d.updating
      then (d, failed ∷ [])
      else let (e, sent) = do_update h info (record d { updating = true }) in
        (record e { updating = false }, sent)
