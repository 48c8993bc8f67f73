-- ===== src/ProtocolUtils/Created.antt =====
-- Which SetToken `getCreatedSetTokenAddress` of utils/common/protocolUtils.ts finds.
use index.Base.{
  ℕ, suc, ◌+◌, ◌-◌, ◌≡◌, refl, ap, ◌∙◌, Bool, true, false, ◌&&◌, leb, inl, inr, Bool-cases, get_or,
  if◌then◌else◌, Option, none, some, List, [], ◌∷◌, ◌++◌, length, length-append, ok, arith,
}
use index.Base.Text.{Text, codes, eqb}
use index.Chain.{BlockTag, latest, numbered, LogQuery}
use index.ProtocolUtils.{Provider, last, parse_entry, created_query, get_created_set_token_address}

-- What a node documents of a query, over its chain of blocks, each the list of its logs.
module _ {ℓ} {Log : Type ℓ} (topics_of : Log → List Text) where
  -- The topics of a filter are those that a log begins with.
  abbrev begins_with : List Text → List Text → Bool
  begins_with [] topics = true
  begins_with (t ∷ filter) [] = false
  begins_with (t ∷ filter) (u ∷ topics) = eqb t u && begins_with filter topics

  abbrev matching : List Text → List Log → List Log
  matching filter [] = []
  matching filter (log ∷ logs) =
      let rest = matching filter logs in
      if begins_with filter (topics_of log) then log ∷ rest else rest

  -- The logs of the blocks from one number up to another, the first block being at `height`.
  abbrev logs_between : ℕ → ℕ → ℕ → List Text → List (List Log) → List Log
  logs_between height from to filter [] = []
  logs_between height from to filter (block ∷ blocks) =
      (if leb from height && leb height to then matching filter block else [])
      ++ logs_between (suc height) from to filter blocks

  abbrev block_of : List (List Log) → BlockTag → ℕ
  block_of blocks latest = length blocks - 1
  block_of blocks (numbered n) = n

  abbrev pub logs_of : List (List Log) → LogQuery → List Log
  logs_of blocks query =
      logs_between 0 (block_of blocks query.from_block) (block_of blocks query.to_block)
        query.topics blocks

  abbrev has_topic : Text → List Text → Bool
  has_topic t [] = false
  has_topic t (u ∷ topics) = eqb t u

  -- The last entry of a block that has a topic first.
  abbrev last_with : Text → List Log → Option Log
  last_with t [] = none
  last_with t (log ∷ logs) =
      let later = last_with t logs in
      if has_topic t (topics_of log) then some (get_or later log) else later

  begins_with_one :
      (t : Text) (topics : List Text) → begins_with (t ∷ []) topics ≡ has_topic t topics
  begins_with_one t [] = refl
  begins_with_one t (u ∷ topics) = ground arith

  last_cons : (x : Log) (xs : List Log) → last (x ∷ xs) ≡ some (get_or (last xs) x)
  last_cons x [] = refl
  last_cons x (y ∷ []) = refl
  last_cons x (y ∷ z ∷ xs) = rw (last_cons z xs) refl

  last-matching : (t : Text) (logs : List Log) → last (matching (t ∷ []) logs) ≡ last_with t logs
  last-matching t [] = refl
  last-matching t (log ∷ logs) =
      let tail = last-matching t logs in
      elim (Bool-cases (has_topic t (topics_of log))) [
        | inl e ↦
            rw (begins_with_one t (topics_of log), e)
              (last_cons log (matching (t ∷ []) logs) ∙ ap (λ o. some (get_or o log)) tail)
        | inr e ↦ rw (begins_with_one t (topics_of log), e) tail
      ]

  append_nil : (logs : List Log) → logs ++ [] ≡ logs
  append_nil [] = refl
  append_nil (log ∷ logs) = ap (λ rest. log ∷ rest) (append_nil logs)

  logs_between-latest :
      (height to : ℕ) (filter : List Text) (earlier : List (List Log)) (block : List Log)
      → to ≡ height + length earlier
      → logs_between height to to filter (earlier ++ (block ∷ [])) ≡ matching filter block
  logs_between-latest height to filter [] block e =
      let here : (leb to height && leb height to) ≡ true = ground arith in
      rw here (append_nil (matching filter block))
  logs_between-latest height to filter (other ∷ earlier) block e =
      let before : (leb to height && leb height to) ≡ false = ground arith in
      rw before (logs_between-latest (suc height) to filter earlier block (omega (arith, e)))

  logs_of-created :
      (id : Text → Text) (earlier : List (List Log)) (block : List Log)
      → logs_of (earlier ++ (block ∷ [])) (created_query id)
        ≡ matching (id (codes "SetTokenCreated(address,address,string,string)") ∷ []) block
  logs_of-created id earlier block =
      logs_between-latest 0 (length (earlier ++ (block ∷ [])) - 1)
        (id (codes "SetTokenCreated(address,address,string,string)") ∷ []) earlier block
        (omega (arith, length-append earlier (block ∷ [])))

  -- Where the node answers each query with the logs of its blocks that match: whatever hash is given,
  -- as long as it is not empty, what is found is the address of the last entry of the latest block that
  -- has the topic of the creation of a SetToken first, whatever the blocks before it hold; and if that
  -- block has none, the read is a fault.
  pub created_is_last :
      (id : Text → Text) (provider : Provider Log) (earlier : List (List Log)) (block : List Log)
      (c : ℕ) (hash : Text)
      → ((query : LogQuery)
          → provider.get_logs query ≡ ok (logs_of (earlier ++ (block ∷ [])) query))
      → get_created_set_token_address id provider (some (c ∷ hash))
        ≡ parse_entry provider.parse_log
            (last_with (id (codes "SetTokenCreated(address,address,string,string)")) block)
  unfolding get_created_set_token_address
  created_is_last id provider earlier block c hash node =
      let event = id (codes "SetTokenCreated(address,address,string,string)") in
      rw (node (created_query id), logs_of-created id earlier block, last-matching event block) refl
