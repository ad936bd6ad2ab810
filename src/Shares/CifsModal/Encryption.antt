-- ===== src/Shares/CifsModal/Encryption.antt =====
-- Encryption and the protocol of a CIFS share (`CIFSModal`, nasweb/frontend/src/js/app.js).
use ollozuna_nas.Prelude.{
  String, true, false, List, [], ◌∷◌, if◌then◌else◌, ◌≡◌, refl, ◌⊎◌, inl, inr, Bool-cases,
}
use ollozuna_nas.Shares.{Smb}
use ollozuna_nas.Shares.CifsModal.{
  SmbSetting, network_name, min_protocol, oplocks, case_sensitivity, comment, signing, encryption,
  time_machine, guest, hide_dot_files, log_access, is_smb3, set_smb, is_disabled,
}

-- A control that is disabled does nothing.
unfoldable pub press : Smb → SmbSetting → Smb
press s v = if is_disabled s v then s else set_smb s v

unfoldable pub press_all : Smb → List SmbSetting → Smb
unfolding press
press_all s [] = s
press_all s (v ∷ vs) = press_all (press s v) vs

-- Encryption is off, or the protocol has it.
abbrev pub IsSound : Smb → Type 0
IsSound s = (s.encryption ≡ false) ⊎ (is_smb3 s.min_protocol ≡ true)

min_protocol-IsSound : (s : Smb) (v : String) → IsSound s → IsSound (set_smb s (min_protocol v))
unfolding set_smb
min_protocol-IsSound s v h = elim (Bool-cases (is_smb3 v)) [
  | inl e ↦ rw e (inr e)
  | inr e ↦ rw e (inl refl)
]

press-IsSound : (s : Smb) (v : SmbSetting) → IsSound s → IsSound (press s v)
unfolding press set_smb is_disabled
press-IsSound s (min_protocol v) h = min_protocol-IsSound s v h
press-IsSound s (encryption b) h = elim (Bool-cases (is_smb3 s.min_protocol)) [
  | inl e ↦ rw e (inr e)
  | inr e ↦ rw e h
]
press-IsSound s (network_name v) h = h
press-IsSound s (oplocks v) h = h
press-IsSound s (case_sensitivity v) h = h
press-IsSound s (comment v) h = h
press-IsSound s (signing v) h = h
press-IsSound s (time_machine v) h = h
press-IsSound s (guest v) h = h
press-IsSound s (hide_dot_files v) h = h
press-IsSound s (log_access v) h = h

-- Whatever is set among the options of a CIFS share, in any order, encryption is never on with a
-- protocol that is not of SMB3, if it was not from the start.
pub encryption-IsSound :
    (s : Smb) (settings : List SmbSetting) → IsSound s → IsSound (press_all s settings)
unfolding press_all
encryption-IsSound s [] h = h
encryption-IsSound s (v ∷ vs) h = encryption-IsSound (press s v) vs (press-IsSound s v h)
