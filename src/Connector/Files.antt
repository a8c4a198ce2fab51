-- ===== src/Connector/Files.antt =====
-- app/integrations/csv_connector.py: how `CSVConnector` reads its file. pathlib and pandas are parameters:
-- the suffix of a path, whether there is a file, and the rows that pandas reads, as texts, without the
-- missing cells.
use nexus_inventory_platform.Base.{ℕ, String, List, [], Bool, str_eq, if◌then◌else◌}
use nexus_inventory_platform.Text.{lower}
use nexus_inventory_platform.Models.{NormalizedInventoryRecord}
use nexus_inventory_platform.Values.{Result, Row}
use nexus_inventory_platform.Connector.{Config}

record Files : Type 0 where
  suffix : String → String
  exists : String → Bool
  read_csv : String → String → Result (List Row)
  read_excel : String → ℕ → Result (List Row)

-- What the connector takes where its configuration, which sync.py makes, has no such key.
abbrev delimiter : String
delimiter = ","

abbrev sheet_name : ℕ
sheet_name = 0

validate_connection : Files → Config → Bool
validate_connection files config = files.exists config.file_path

-- An empty stream.
fetch_inventory : Config → List NormalizedInventoryRecord
fetch_inventory config = []

-- `_read_dataframe`
read_dataframe : Files → String → Result (List Row)
unfolding lower
read_dataframe files file_path =
    if str_eq (lower (files.suffix file_path)) ".csv"
    then files.read_csv file_path delimiter
    else files.read_excel file_path sheet_name
