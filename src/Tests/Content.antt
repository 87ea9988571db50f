-- ===== src/Tests/Content.antt =====
-- Files and projects on small tables.
use audio_tool_api.Prelude.{false, List, [], ◌∷◌, codes}
use audio_tool_api.Content.{Fresh, FileRow, FileModel, ProjectRow}
use audio_tool_api.Content.Files.{file_row}

abbrev fresh : Fresh
fresh = record { id = 9; guid = codes "g9"; is_deleted = false }

abbrev song : FileModel
song = record {
  id = 0;
  contents = 1 ∷ 2 ∷ [];
  size = 2;
  guid = [];
  name = codes "song";
  sample_rate = 44100;
  user_id = 5;
}

abbrev empty : FileModel
empty = record {
  id = 0;
  contents = [];
  size = 0;
  guid = [];
  name = [];
  sample_rate = 0;
  user_id = 0;
}

abbrev files : List FileRow
files = file_row (record { id = 8; guid = codes "g8"; is_deleted = false }) 100 song ∷ []

abbrev mix : ProjectRow
mix = record {
  id = 1;
  guid = codes "p1";
  creator_id = 5;
  name = codes "mix";
  project_data = codes "{}";
  is_deleted = false;
}

abbrev renamed : ProjectRow
renamed = record mix { name = codes "final mix" }
