-- ===== src/Config/Store/Yaml.antt =====
-- retry_config_file.go: the YAML of a file. The decoder is a parameter: it reads one document of a
-- stream and leaves the rest.
use http_governance_client.Common.{
  ◌≡◌, ◌↔◌, refl, Option, none, some, arith, inl, inr, Result, ok, err, ◌>>=◌, ◌>>◌, Result-cases,
}
use http_governance_client.Common.Text.{Text}
use http_governance_client.Config.Match.{PathMatch}
use http_governance_client.Config.Patches.{ParseDuration}
use http_governance_client.Config.Provider.{
  ManagedRetryConfigProvider, new_managed_retry_config_provider,
}
use http_governance_client.Config.File.{RetryConfigFile, ConfigError}
use http_governance_client.Config.Update.{update_provider, load}

pub data DecodeError : Type 0 where
  eof : DecodeError
  malformed : Text → DecodeError

-- yaml.NewDecoder with KnownFields: Decode into a file, and Decode into any value.
pub record YamlDecoder : Type 0 where
  pub decode_file : Text → Result DecodeError (RetryConfigFile × Text)
  pub decode_any : Text → Result DecodeError Text

pub data YamlError : Type 0 where
  not_decoded : DecodeError → YamlError
  must_contain_exactly_one_document : YamlError
  invalid_trailing_document : Text → YamlError
  not_accepted : ConfigError → YamlError

-- `decoder.Decode(&extra)` must be at the end of the stream.
at_the_end : Result DecodeError Text → Result YamlError (Unit {0})
at_the_end (ok rest) = err must_contain_exactly_one_document
at_the_end (err eof) = ok tt
at_the_end (err (malformed s)) = err (invalid_trailing_document s)

first_document :
    Result DecodeError (RetryConfigFile × Text) → Result YamlError (RetryConfigFile × Text)
first_document (ok d) = ok d
first_document (err e) = err (not_decoded e)

unfoldable pub decode_retry_config_yaml : YamlDecoder → Text → Result YamlError RetryConfigFile
unfolding at_the_end first_document
decode_retry_config_yaml decoder contents = do
  document ← first_document (decoder.decode_file contents)
  at_the_end (decoder.decode_any document.1)
  ok document.0

accepted :
    ManagedRetryConfigProvider × Option ConfigError → ManagedRetryConfigProvider × Option YamlError
accepted (p, none) = (p, none)
accepted (p, some e) = (p, some (not_accepted e))

update_decoded :
    ParseDuration
    → PathMatch
    → ManagedRetryConfigProvider
    → Result YamlError RetryConfigFile
    → ManagedRetryConfigProvider × Option YamlError
unfolding accepted update_provider
update_decoded parse glob p (err e) = (p, some e)
update_decoded parse glob p (ok file) = accepted (update_provider parse glob p file)

unfoldable pub update_from_yaml :
    YamlDecoder
    → ParseDuration
    → PathMatch
    → ManagedRetryConfigProvider
    → Text
    → ManagedRetryConfigProvider × Option YamlError
unfolding update_decoded decode_retry_config_yaml
update_from_yaml decoder parse glob p contents =
    update_decoded parse glob p (decode_retry_config_yaml decoder contents)

created_from :
    ManagedRetryConfigProvider × Option YamlError → Result YamlError ManagedRetryConfigProvider
created_from (p, none) = ok p
created_from (p, some e) = err e

unfoldable pub new_managed_retry_config_provider_from_yaml :
    YamlDecoder → ParseDuration → PathMatch → Text → Result YamlError ManagedRetryConfigProvider
unfolding update_from_yaml created_from new_managed_retry_config_provider
new_managed_retry_config_provider_from_yaml decoder parse glob contents =
    created_from (update_from_yaml decoder parse glob new_managed_retry_config_provider contents)

one_document :
    (decoder : YamlDecoder) (contents : Text) (file : RetryConfigFile)
    → decode_retry_config_yaml decoder contents ≡ ok file
    → (rest : Text) × (decoder.decode_file contents ≡ ok (file, rest))
      × (decoder.decode_any rest ≡ err eof)
unfolding decode_retry_config_yaml
one_document decoder contents file e = elim (Result-cases (decoder.decode_file contents)) [
  | inr (x, bad) ↦ absurd (ground arith)
  | inl ((f, rest), ef) ↦ elim (Result-cases (decoder.decode_any rest)) [
    | inl (more, bad) ↦ absurd (ground arith)
    | inr (eof, end) ↦ let same : f ≡ file = ground arith in rw (← same) (rest, ef, end)
    | inr (malformed x, bad) ↦ absurd (ground arith)
  ]
]

-- A provider is made from YAML exactly where the data is one document and nothing after it, whose
-- file Update accepts, and then it is the provider that is compiled from this file.
pub new_from_yaml-one_document :
    (decoder : YamlDecoder) (parse : ParseDuration) (glob : PathMatch) (contents : Text)
    (q : ManagedRetryConfigProvider)
    → (new_managed_retry_config_provider_from_yaml decoder parse glob contents ≡ ok q) ↔ (
        (file : RetryConfigFile) × (rest : Text) × (decoder.decode_file contents ≡ ok (file, rest))
        × (decoder.decode_any rest ≡ err eof)
        × (load parse glob file ≡ ok q))
unfolding new_managed_retry_config_provider_from_yaml update_from_yaml decode_retry_config_yaml
    update_provider
new_from_yaml-one_document decoder parse glob contents q = (
  (λ made. elim (Result-cases (decode_retry_config_yaml decoder contents)) [
    | inr (x, bad) ↦ absurd (ground arith)
    | inl (file, ef) ↦
        let (rest, there, end) = one_document decoder contents file ef in
        elim (Result-cases (load parse glob file)) [
          | inr (x, bad) ↦ absurd (ground arith)
          | inl (p, good) ↦
              let same : p ≡ q = ground arith in (file, rest, there, end, rw (← same) good)
        ]
  ]),
  (λ (file, rest, there, end, good). rw (there, end, good) refl),
)
