-- ===== src/Shared/Managers.antt =====
-- packages/shared/src/getManager.ts and types.ts: the contracts of a network, by the addresses of
-- packages/contracts/address.json.
use logstore_archive.Base.{ℕ, String, Option, none, some, List, [], ◌∷◌, ◌==◌, if◌then◌else◌}
use logstore_archive.Base.Result.{Result, ok, err, ◌>>=◌}

pub data Manager : Type 0 where
  node_manager store_manager query_manager report_manager token_manager : Manager

pub record Addresses : Type 0 where
  pub token_manager_address : String
  pub node_manager_address : String
  pub store_manager_address : String
  pub query_manager_address : String
  pub report_manager_address : String

-- `ContractAddresses`, by chain id
pub contract_addresses : List (ℕ × Addresses)
contract_addresses =
    (
      5,
      record {
        token_manager_address = "0xB2501Ff9B1e4abac3Ae18a29ECcc24AAA600a695";
        node_manager_address = "0x044f7Ad23BE4f1d402a67078fF9012Db8b8706a6";
        store_manager_address = "0x5cA22cB7aC8AcCB8633b480b1b56c0d8E915C939";
        query_manager_address = "0x2E3c6fDc3F4363e0819057Db7ab875E961d98bE5";
        report_manager_address = "0x17e39306bEcd53D3a2bAf16350D54E4283e59d40";
      },
    )
    ∷ (
      137,
      record {
        token_manager_address = "0x365Bdc64E2aDb50E43E56a53B7Cc438d48D0f0DD";
        node_manager_address = "0xeb21022d952e5De09C30bfda9E6352FFA95F67bE";
        store_manager_address = "0x4122433b76a7aE5CF56C539BC0D59bacd53EF5c5";
        query_manager_address = "0xF609f73B908f39856659aEdc45C37513792ac4e5";
        report_manager_address = "0xE50bC09764889C99f4d96C08f2A73D1693E96c2B";
      },
    )
    ∷ (
      8997,
      record {
        node_manager_address = "0x85ac4C8E780eae81Dd538053D596E382495f7Db9";
        store_manager_address = "0x8560200b8E7477FB09281A0566B50fa6E7a66a34";
        query_manager_address = "0x65d379f29BE436bD367699f3Dd7A436c54795a49";
        report_manager_address = "0x29DAE06145698A4Af8D54B91D0c6391C4B28102E";
        token_manager_address = "0x62c82404c1937E27C92E24901979A4d9b1b9858e";
      },
    )
    ∷ (
      80001,
      record {
        node_manager_address = "0x98df193804F3fE221E419D93641B4Edb605F9de2";
        store_manager_address = "0x6572DD45b56F72D4dEB4AAbbEcDEe00Dd9BACab3";
        query_manager_address = "0x4E6380393223F68a0B0bd6dbc7e308F5ea38F3bf";
        report_manager_address = "0x30E7820a6BAB5C6F831372530BBf7219cCfe446B";
        token_manager_address = "0x62c82404c1937E27C92E24901979A4d9b1b9858e";
      },
    )
    ∷ []

abbrev at_chain : List (ℕ × Addresses) → ℕ → Option Addresses
at_chain [] chain_id = none
at_chain ((id, addresses) ∷ rest) chain_id =
    if id == chain_id then some addresses else at_chain rest chain_id

unfoldable pub addresses_of : ℕ → Option Addresses
unfolding contract_addresses
addresses_of chain_id = at_chain contract_addresses chain_id

pub data SharedError (X : Type 0) : Type 0 where
  network_not_defined no_provider amount_not_positive not_enough_allowance : SharedError X
  transaction_failed not_confirmed : SharedError X
  -- a property of undefined, or a BigInt of a number that is not whole
  type_error range_error : SharedError X
  -- thrown by a call of a contract or of a service
  thrown : X → SharedError X

-- A signer or a provider: the network that it is connected to, if it is, and the account.
pub record Signer : Type 0 where
  pub chain_id : Option ℕ
  pub account : String

-- A typed contract of ethers at an address.
pub record Contract : Type 0 where
  pub kind : Manager
  pub address : String

abbrev pub address_in : Manager → Addresses → String
address_in Manager.node_manager a = a.node_manager_address
address_in Manager.query_manager a = a.query_manager_address
address_in Manager.store_manager a = a.store_manager_address
address_in Manager.report_manager a = a.report_manager_address
address_in Manager.token_manager a = a.token_manager_address

module _ {X : Type 0} where
  abbrev or_type_error : Option Addresses → Manager → Result (SharedError X) String
  or_type_error none manager = err type_error
  or_type_error (some a) manager = ok (address_in manager a)

  unfoldable pub get_manager_address : ℕ → Manager → Result (SharedError X) String
  get_manager_address chain_id manager = or_type_error (addresses_of chain_id) manager

  abbrev connect : Option ℕ → Manager → Result (SharedError X) Contract
  connect none manager = err network_not_defined
  connect (some chain_id) manager =
      get_manager_address chain_id manager >>= λ a. ok (record { kind = manager; address = a })

  unfoldable pub get_manager_contract : Signer → Manager → Result (SharedError X) Contract
  get_manager_contract signer manager = connect signer.chain_id manager

  abbrev pub get_node_manager_contract : Signer → Result (SharedError X) Contract
  get_node_manager_contract s = get_manager_contract s Manager.node_manager

  abbrev pub get_query_manager_contract : Signer → Result (SharedError X) Contract
  get_query_manager_contract s = get_manager_contract s Manager.query_manager

  abbrev pub get_store_manager_contract : Signer → Result (SharedError X) Contract
  get_store_manager_contract s = get_manager_contract s Manager.store_manager

  abbrev pub get_report_manager_contract : Signer → Result (SharedError X) Contract
  get_report_manager_contract s = get_manager_contract s Manager.report_manager

  abbrev pub get_token_manager_contract : Signer → Result (SharedError X) Contract
  get_token_manager_contract s = get_manager_contract s Manager.token_manager
