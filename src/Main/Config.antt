-- ===== src/Main/Config.antt =====
-- cfgValidation of main.go, over the configuration that package viper holds.
pub mod Laws
use dnslb.Base.{
  Bool, true, false, not, ◌||◌, ◌&&◌, Option, none, some, List, [], ◌∷◌, Str, bytes, str_eq,
  is_empty, if◌then◌else◌,
}
use dnslb.Flags.{str_in_str_slice}
use dnslb.Main.Store.{Value, text, Viper}

abbrev pub provider_names : List Str
provider_names = bytes "autodns" ∷ bytes "mock" ∷ bytes "mockjson" ∷ []

-- What logrus.Fatal is called with: the end of the process.
pub data Fatal : Type 0 where
  unknown_provider no_etcds no_instance_id no_lock_name no_lock_namespace no_raft_address : Fatal
  no_raft_dir unknown_election no_autodns_username no_autodns_password no_mock_file : Fatal
  no_mock_file_state : Fatal

-- `if test { logrus.Fatal(…) }`, and what follows.
unfoldable pub fatal_if : Bool → Fatal → Option Fatal → Option Fatal
fatal_if test fatal rest = if test then some fatal else rest

-- `viper.Get(key) == ""`: the comparison of an interface value with a string.
abbrev pub is_empty_text : Option Value → Bool
is_empty_text none = false
is_empty_text (some (text s)) = is_empty s
is_empty_text (some _) = false

module _ (viper : Viper) where
  abbrev empty_string : Str → Bool
  empty_string key = is_empty (viper.get_string key)

  -- The switch over the provider.
  unfoldable pub provider_validation : Option Fatal
  unfolding fatal_if
  provider_validation =
      if str_eq (viper.get_string (bytes "dnsProvider")) (bytes "autodns")
      then fatal_if (empty_string (bytes "autodns-username")) no_autodns_username
          (fatal_if (empty_string (bytes "autodns-password")) no_autodns_password none)
      else if str_eq (viper.get_string (bytes "dnsProvider")) (bytes "mock")
      then fatal_if (is_empty_text (viper.get (bytes "mockZonePath"))) no_mock_file none
      else if str_eq (viper.get_string (bytes "dnsProvider")) (bytes "mockjson")
      then fatal_if (is_empty_text (viper.get (bytes "mockZonePath"))) no_mock_file
          (fatal_if (is_empty_text (viper.get (bytes "mockZoneStatePath"))) no_mock_file_state none)
      else none

  -- The switch over the elections that need an identity.
  abbrev pub election_switch : Option Fatal → Option Fatal
  election_switch rest =
      if str_eq (viper.get_string (bytes "election")) (bytes "k8s")
      then fatal_if (empty_string (bytes "instance-identifier")) no_instance_id (
          fatal_if (empty_string (bytes "k8s-lock-name")) no_lock_name
            (fatal_if (empty_string (bytes "k8s-lock-namespace")) no_lock_namespace rest))
      else if str_eq (viper.get_string (bytes "election")) (bytes "raft")
      then fatal_if (empty_string (bytes "instance-identifier")) no_instance_id (
          fatal_if (empty_string (bytes "raft-address")) no_raft_address
            (fatal_if (empty_string (bytes "raft-dir")) no_raft_dir rest))
      else some unknown_election

  -- The switch over the election; `rest` is what follows it.
  unfoldable pub election_validation : Option Fatal → Option Fatal
  unfolding fatal_if
  election_validation rest =
      if str_eq (viper.get_string (bytes "election")) (bytes "singleton")
      then rest
      else election_switch rest

  -- cfgValidation: the first fatal error, if there is one.
  unfoldable pub cfg_validation : Option Fatal
  unfolding provider_validation election_validation str_in_str_slice
  cfg_validation =
      fatal_if (not (str_in_str_slice (viper.get_string (bytes "dnsProvider")) provider_names))
        unknown_provider
        (fatal_if (is_empty (viper.get_string_slice (bytes "etcEndpoint"))) no_etcds
          (election_validation provider_validation))
