-- ===== src/Sync/Writes.antt =====
-- That `push` of src/core/services/SyncService.ts does what Sync.Pushes says, or nothing.
use graph_node_be.Notes.Repository
use graph_node_be.Notes.Folders
