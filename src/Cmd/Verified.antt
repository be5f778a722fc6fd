-- ===== src/Cmd/Verified.antt =====
-- `krennic audit verify` against the hub that answers it.
use director_orson_callan_kr.Base.{
  ℕ, Bytes, ◌≡◌, false, some, [], ◌++◌, Result, ok, ◌⊎◌, length, str_eq, utf8, if◌then◌else◌,
}
use director_orson_callan_kr.Model.{Time}
use director_orson_callan_kr.Sql.{Conn, next_fault}
use director_orson_callan_kr.Audit.{genesis_hash}
use director_orson_callan_kr.Config.Defs.{Config}
use director_orson_callan_kr.Secrets.{Keyring, resolve}
use director_orson_callan_kr.Git.Tree.{text_or}
use director_orson_callan_kr.Hub.Log.{
  HubDb, VerifyResult, Detail, no_detail, prev_hash_broken, entry_hash_broken, verify_rows,
}
use director_orson_callan_kr.Hub.Chain.{IsChained}
use director_orson_callan_kr.Hub.Client.{Request}
use director_orson_callan_kr.Hub.Server.{Server, authed, handler}
use director_orson_callan_kr.Cmd.Http.{Call, Transport, get_json_auth}
use director_orson_callan_kr.Cmd.Team.{Library, VerifyAnswer, intact_line, broken_line}

-- A hub as a transport: its mux gets the request that net/http makes of a call.
abbrev pub served : Server → Time → (Call → Request) → Transport (Conn HubDb)
served s now parse call c = let (resp, c') = handler s now (parse call) c in (ok resp, c')

abbrev pub detail_text : Detail → Bytes
detail_text no_detail = []
detail_text prev_hash_broken = utf8 "prev_hash nenavazuje — záznam byl smazán nebo přeuspořádán"
detail_text entry_hash_broken = utf8 "entry_hash nesedí — obsah záznamu byl změněn"

-- The answer of /api/verify, member by member.
abbrev pub answer_of : VerifyResult → VerifyAnswer
answer_of v = record {
  is_ok = v.ok_chain;
  count = v.count;
  broken_seq = v.broken_seq;
  detail = detail_text v.detail;
}

-- What Verify finds in a log.
abbrev pub verdict : Server → Conn HubDb → VerifyResult
verdict s c = verify_rows s.library.digest genesis_hash 0 c.db.audit

module _ (s : Server) (r : Request) (c : Conn HubDb) where
  -- The hub refuses the request, or the driver fails its statement.
  abbrev pub Refused : Type 0
  Refused = (authed s r ≡ false) ⊎ ((e : Bytes) × (next_fault c.faults ≡ some e))

-- The call of getJSONAuth.
abbrev pub get_call : Bytes → Bytes → Call
get_call url token = record {
  method = utf8 "GET";
  url = url;
  authorization = if str_eq token [] then [] else utf8 "Bearer " ++ token;
}

module _ (parse : Call → Request) (keyring : Keyring (Conn HubDb)) (cfg : Config)
    (c : Conn HubDb) where
  abbrev pub token_of : Bytes
  token_of = text_or [] (resolve keyring cfg.hub.token_identity c).0

  -- The request that reaches the hub.
  abbrev pub asked : Request
  asked = parse (get_call (cfg.hub.url ++ utf8 "/api/verify") token_of)

module _ (s : Server) (c : Conn HubDb) where
  abbrev pub IsIntact : Type 0
  IsIntact = IsChained s.library.digest genesis_hash c.db.audit

  -- What is printed of a log.
  abbrev pub Tells : Bytes → Type 0
  Tells text =
      (IsIntact × (text ≡ intact_line (length c.db.audit)))
      ⊎ ((¬ IsIntact)
          × ((seq : ℕ) × (detail : Detail) × (text ≡ broken_line seq (detail_text detail))))

module _ (lib : Library) (transport : Transport (Conn HubDb)) (keyring : Keyring (Conn HubDb))
    (cfg : Config) (c : Conn HubDb)
    (apart : (place name : Bytes) → (keyring.get place name c).1 ≡ c) where
  abbrev got : Result VerifyAnswer
  got =
      (get_json_auth transport lib.decode_verify (cfg.hub.url ++ utf8 "/api/verify")
        (text_or [] (resolve keyring cfg.hub.token_identity c).0) c).0
