-- ===== src/Establish.antt =====
-- src/definitions/session.rs and src/presentation: the establishment of a session, from the engagement
-- of the holder to the first request of the reader.
pub mod Keys
pub mod Holder
pub mod Reader
pub mod Agreed
pub mod Engaged
pub mod Message
pub mod Requested
pub mod Opened
pub mod Established
pub mod Example
mod Tests
use isomdl_elevenid.Common.{Option}
use isomdl_elevenid.Common.Order.{Str}
use isomdl_elevenid.Session.{Bytes}
use isomdl_elevenid.Session.Derived.{DeriveError}
use isomdl_elevenid.DeviceKey.CoseKey.{CoseKey, CoseKeyError}
use isomdl_elevenid.Issuance.Plan.{Tag24}
use isomdl_elevenid.Engagement.{DeviceEngagement}
use isomdl_elevenid.Engagement.Tagged.{Tag24Error}
use isomdl_elevenid.Engagement.Qr.{QrError}
use isomdl_elevenid.Reader.Manager.{RequestBuildError}

-- `session::Error`
pub data SessionError : Type 0 where
  unsupported_curve shared_secret_error session_key_error ephemeral_key_error : SessionError

pub data SharedSecretError : Type 0 where
  unencodable_key : CoseKeyError → SharedSecretError
  unconstructible_key : SharedSecretError

-- What ends the establishment on either side; a panic of the derivation is an error of the model.
pub data EstablishError : Type 0 where
  invalid_qr_code : QrError → EstablishError
  ephemeral_key : SessionError → EstablishError
  tag24_encoding : Tag24Error → EstablishError
  shared_secret : SharedSecretError → EstablishError
  derivation : DeriveError → EstablishError
  request : RequestBuildError → EstablishError
  ble_ident derivation_panicked unencodable_establishment : EstablishError

pub data Handover : Type 0 where
  qr : Handover
  nfc : Bytes → Option Bytes → Handover
  oid4vp : Str → Str → Handover

-- `SessionTranscript180135`
pub record SessionTranscript : Type 0 where
  pub device_engagement : Tag24 DeviceEngagement
  pub e_reader_key : Tag24 CoseKey
  pub handover : Handover

pub record SessionEstablishment : Type 0 where
  pub e_reader_key : Tag24 CoseKey
  pub data_bytes : Bytes
